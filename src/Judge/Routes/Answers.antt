-- ===== src/Judge/Routes/Answers.antt =====
-- Responses of the server that `MakeServer` of oiajudge/pkg/oiajudge/sever.go makes.
use oiaj.Base.{◌≡◌, refl, Bool, Option, none, some, [], arith}
use oiaj.Text.Bytes.{Bytes, codes}
use oiaj.Bridge.{ObjectId}
use oiaj.Store.Errors.{ok}
use oiaj.Store.Action.{pure, >>=-ok}
use oiaj.Store.Action.Calm.{IsCalm, pure-IsCalm}
use oiaj.Judge.Server.{Config, Server, Api, set_mock_time, unmock_time}
use oiaj.Judge.Api.{
  make_submission, create_user_api, get_user, get_submissions, get_submission, get_tasks,
  get_single_task, get_attachment, handle_set_mock_time, handle_unmock_time, validate_token,
}
use oiaj.Judge.Api
use oiaj.Judge.Api.Calm.{IsTame}
use oiaj.Judge.Http.{
  Body, Response, no_auth, with_user_auth, health, serve_statement, serve_attachment,
}
use oiaj.Judge.Http.Calm.{
  Answers, Still, on_contest-IsCalm, no_auth-Answers, with_user_auth-Answers,
}
use oiaj.Judge.Http.Files.{serve_statement-Answers, serve_attachment-Answers}
use oiaj.Judge.Routes.{
  Endpoint, preflight, to_create_user, to_user_login, to_get_user, to_get_submissions,
  to_get_submission, to_make_submission, to_get_tasks, to_get_single_task, to_validate_token,
  to_statement, to_attachment, to_health, to_set_mock_time, to_unmock_time, session, account,
  listing, single, created, all_tasks, one_task, nothing, always, Payload, Route, routes, Vars,
  Router, Incoming, Wire, wrap, with_payload, request, serve, serve_route, make_server,
}
use oiaj.Judge.Routes.Calm.{
  IsTameBridge, make_submission-IsCalm, create_user_api-IsCalm, user_login-IsCalm, get_user-Calmly,
  get_submissions-IsCalm, get_submission-IsCalm, get_tasks-IsCalm, get_single_task-IsCalm,
  get_task_statement-IsCalm,
}

module _ {F B : Type 0} (config : Config F B) (wire : Wire F) (Fine : B → Type 0)
    (tame : IsTame config.bcrypt) (kind : IsTameBridge Fine config.bridge) where
  named-Answers :
      {R : Type 0} (f : R → Payload F) (m : Api F B (Response R)) (s : Server F B)
      → Answers (m s)
      → Answers (with_payload f m s)
  unfolding with_payload
  named-Answers f m s (r, t, e) = (wrap f r, t, >>=-ok m s (λ r. pure (wrap f r)) e)

  open-Answers :
      {Q R : Type 0} (f : R → Payload F) (marshals : R → Bool) (api : Q → Api F B R)
      (decode : Bytes → Option Q) (r : Incoming) (s : Server F B)
      → ((q : Q) → IsCalm (Still Fine) (api q))
      → Still Fine s
      → Answers (with_payload f (no_auth marshals api (request decode r)) s)
  open-Answers f marshals api decode r s h g =
      named-Answers f (no_auth marshals api (request decode r)) s
        (no_auth-Answers Fine marshals api (request decode r) s h g)

  guarded-Answers :
      {Q R : Type 0} (f : R → Payload F) (uid : Q → ObjectId) (marshals : R → Bool)
      (api : Q → Api F B R) (decode : Bytes → Option Q) (r : Incoming) (s : Server F B)
      → ((q : Q) → IsCalm (Still Fine) (api q))
      → Still Fine s
      → Answers (with_payload f (with_user_auth uid marshals api (request decode r)) s)
  guarded-Answers f uid marshals api decode r s h g =
      named-Answers f (with_user_auth uid marshals api (request decode r)) s
        (with_user_auth-Answers Fine uid marshals api (request decode r) s h g)

  serve-Answers :
      (e : Endpoint) (vars : Vars) (r : Incoming) (s : Server F B)
      → Still Fine s
      → Answers (serve config wire e vars r s)
  unfolding serve health validate_token get_attachment handle_set_mock_time handle_unmock_time
      set_mock_time unmock_time with_payload
  serve-Answers preflight vars r s g = (record { status = 200; body = Body.empty }, s, refl)
  serve-Answers to_create_user vars r s g =
      open-Answers session always (create_user_api config) wire.create_user r s
        (create_user_api-IsCalm config Fine tame kind) g
  serve-Answers to_user_login vars r s g =
      open-Answers session always (Api.user_login config) wire.user_login r s
        (user_login-IsCalm config Fine tame kind) g
  serve-Answers to_get_user vars r s g =
      guarded-Answers account (λ uid. uid) wire.user_fits (get_user config) wire.get_user r s
        (get_user-Calmly config Fine) g
  serve-Answers to_get_submissions vars r s g =
      open-Answers listing wire.submissions_fit (λ q. get_submissions config q.0 q.1)
        wire.get_submissions r s (λ q. get_submissions-IsCalm config Fine q.0 q.1) g
  serve-Answers to_get_submission vars r s g =
      open-Answers single wire.submission_fits (get_submission config) wire.get_submission r s
        (get_submission-IsCalm config Fine) g
  serve-Answers to_make_submission vars r s g =
      guarded-Answers created (λ q. q.user) always (make_submission config) wire.make_submission r s
        (make_submission-IsCalm config Fine tame kind) g
  serve-Answers to_get_tasks vars r s g =
      open-Answers all_tasks wire.tasks_fit (λ q. get_tasks config) wire.get_tasks r s
        (λ q. get_tasks-IsCalm config Fine) g
  serve-Answers to_get_single_task vars r s g =
      open-Answers one_task wire.task_fits (get_single_task config) wire.get_single_task r s
        (get_single_task-IsCalm config Fine) g
  serve-Answers to_validate_token vars r s g =
      guarded-Answers nothing (λ uid. uid) always (validate_token config) wire.validate_token r s
        (λ uid. pure-IsCalm (Still Fine) tt) g
  serve-Answers to_statement vars r s g =
      named-Answers nothing (serve_statement config (vars (codes "tid"))) s (
        serve_statement-Answers config Fine (vars (codes "tid")) s
          (get_task_statement-IsCalm config Fine) g)
  serve-Answers to_attachment vars r s g =
      named-Answers nothing
        (serve_attachment config (r.query (codes "filename")) (r.query (codes "task_id"))) s
        (serve_attachment-Answers config Fine (r.query (codes "filename"))
          (r.query (codes "task_id")) s
          (λ tid name.
            on_contest-IsCalm Fine (config.bridge.get_attachment tid name) (kind.attaches tid name))
          g)
  serve-Answers to_health vars r s g = (record { status = 200; body = Body.empty }, s, refl)
  serve-Answers to_set_mock_time vars r s g =
      open-Answers nothing always (handle_set_mock_time config) wire.set_mock_time r s
        (λ t s g. record { state = g; returns = λ m p. ground arith }) g
  serve-Answers to_unmock_time vars r s g =
      open-Answers nothing always (λ q. handle_unmock_time config) wire.unmock_time r s
        (λ q s g. record { state = g; returns = λ m p. ground arith }) g

  serve_route-Answers :
      (router : Router) (o : Option (Route × Vars)) (r : Incoming) (s : Server F B)
      → Still Fine s
      → Answers (serve_route config router wire o r s)
  unfolding serve_route
  serve_route-Answers router none r s g = (
    record {
      status = (router.refusal r.method r.path).0;
      body = Body.raw (router.refusal r.method r.path).1;
    },
    s,
    refl,
  )
  serve_route-Answers router (some (t, vars)) r s g = serve-Answers t.endpoint vars r s g

module _ {F B : Type 0} (config : Config F B) (router : Router) (wire : Wire F)
    (Fine : B → Type 0) where
  -- Where no failure of the judge's database is to come, bcrypt does not panic, and the requests of
  -- the bridge do not panic in a contest system that is fine and leave it fine, every request, to any
  -- path and with any body and header, ends in a response.
  pub make_server-Answers :
      (r : Incoming) (s : Server F B)
      → IsTame config.bcrypt
      → IsTameBridge Fine config.bridge
      → s.judge.schedule ≡ []
      → Fine s.contest
      → (resp : Response (Payload F)) × (s' : Server F B) × (make_server config router wire r s
          ≡ (ok resp, s'))
  unfolding make_server
  make_server-Answers r s tame kind quiet fine =
      serve_route-Answers config wire Fine tame kind router
        (router.pick (routes config.debug) r.method r.path) r s (quiet, fine)
