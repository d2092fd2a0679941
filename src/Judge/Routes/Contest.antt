-- ===== src/Judge/Routes/Contest.antt =====
-- Which requests to the server of oiajudge/pkg/oiajudge/sever.go reach the contest system.
use oiaj.Base.{
  ◌≡◌, refl, ap, ◌∙◌, ◌⊎◌, inl, inr, Bool, true, false, Option, none, some, Option-cases, arith,
}
use oiaj.Text.Bytes.{Bytes, codes}
use oiaj.Bridge.{ObjectId}
use oiaj.Store.Errors.{Outcome, Outcome-cases, ok, err, panic}
use oiaj.Judge.Server.{Config, Server, Api, set_mock_time, unmock_time}
use oiaj.Judge.Server.Keeping.{IsStable}
use oiaj.Judge.Api.{
  MakeSubmissionQuery, CreateUserQuery, make_submission, get_user, get_submissions, get_submission,
  get_tasks, get_single_task, get_task_statement, handle_set_mock_time, handle_unmock_time,
  validate_token,
}
use oiaj.Judge.Api
use oiaj.Judge.Http.{
  Request, Response, health, check_bearer, authenticate, bearer_token, outer, no_auth,
  with_user_auth, serve_statement,
}
use oiaj.Judge.Http.Auth.{Authorized, authenticate_sound, check_bearer-quiet}
use oiaj.Judge.Http.Keeping.{serve_statement-IsStable}
use oiaj.Judge.Routes.{
  Endpoint, preflight, to_create_user, to_user_login, to_get_user, to_get_submissions,
  to_get_submission, to_make_submission, to_get_tasks, to_get_single_task, to_validate_token,
  to_statement, to_attachment, to_health, to_set_mock_time, to_unmock_time, session, account,
  listing, single, created, all_tasks, one_task, nothing, always, Payload, Route, routes, Vars,
  Router, Incoming, Wire, with_payload, request, serve, serve_route, make_server,
}
use oiaj.Judge.Routes.Keeping.{with_payload-IsStable, open_route-IsStable, guarded_route-IsStable}

module _ {F B Q R : Type 0} (uid : Q → ObjectId) (marshals : R → Bool) (f : Q → Api F B R) where
  -- Where the check does not let a request through, the contest system does not hear of it.
  with_user_auth-contest :
      (r : Request Q) (s : Server F B)
      → ((with_user_auth uid marshals f r s).1.contest ≡ s.contest)
        ⊎ ((q : Q) × (r.body ≡ some q) × Authorized (uid q) r.authorization s.judge.db)
  unfolding with_user_auth authenticate
  with_user_auth-contest r s = elim (Option-cases r.body) [
    | inl bad ↦ inl (ground arith)
    | inr (q, e) ↦
        let s1 = (authenticate (uid q) r.authorization s).1 in
        let same : s1.contest ≡ s.contest =
          (check_bearer-quiet (uid q) (bearer_token r.authorization) s).1 in
        elim (Outcome-cases (authenticate (uid q) r.authorization s).0) [
          | inl (u, passed) ↦
              let ran : authenticate (uid q) r.authorization s ≡ (ok tt, s1) = ground arith in
              inr (q, e, authenticate_sound (uid q) r.authorization s s1 ran)
          | inr (inl (x, failed)) ↦ inl (ground arith)
          | inr (inr (m, stopped)) ↦ inl (ground arith)
        ]
  ]

-- The endpoints whose handlers call the bridge.
abbrev calls_bridge : Endpoint → Bool
calls_bridge to_create_user = true
calls_bridge to_make_submission = true
calls_bridge to_attachment = true
calls_bridge _ = false

module _ {F B : Type 0} (config : Config F B) (wire : Wire F) (b : B) where
  abbrev Same : Server F B → Type 0
  Same s = s.contest ≡ b

  check_bearer-Same : (uid : ObjectId) (o : Option Bytes) → IsStable Same (check_bearer uid o)
  check_bearer-Same uid o s p = (check_bearer-quiet uid o s).1 ∙ p

  get_task_statement-Same : (tid : ObjectId) → IsStable Same (get_task_statement config tid)
  unfolding get_task_statement
  get_task_statement-Same tid s p = p

  serve-Same :
      (e : Endpoint) (vars : Vars) (r : Incoming)
      → calls_bridge e ≡ false
      → IsStable Same (serve config wire e vars r)
  unfolding serve health validate_token Api.user_login get_user get_submissions get_submission
      get_tasks get_single_task handle_set_mock_time handle_unmock_time set_mock_time unmock_time
  serve-Same preflight vars r h s p = p
  serve-Same to_create_user vars r h s p = absurd (ground arith)
  serve-Same to_user_login vars r h s p =
      open_route-IsStable Same session always (Api.user_login config) wire.user_login r (λ q s p. p)
        s p
  serve-Same to_get_user vars r h s p =
      guarded_route-IsStable Same check_bearer-Same account (λ uid. uid) wire.user_fits
        (get_user config) wire.get_user r (λ q s p. p) s p
  serve-Same to_get_submissions vars r h s p =
      open_route-IsStable Same listing wire.submissions_fit (λ q. get_submissions config q.0 q.1)
        wire.get_submissions r (λ q s p. p) s p
  serve-Same to_get_submission vars r h s p =
      open_route-IsStable Same single wire.submission_fits (get_submission config)
        wire.get_submission r (λ q s p. p) s p
  serve-Same to_make_submission vars r h s p = absurd (ground arith)
  serve-Same to_get_tasks vars r h s p =
      open_route-IsStable Same all_tasks wire.tasks_fit (λ q. get_tasks config) wire.get_tasks r
        (λ q s p. p) s p
  serve-Same to_get_single_task vars r h s p =
      open_route-IsStable Same one_task wire.task_fits (get_single_task config) wire.get_single_task
        r (λ q s p. p) s p
  serve-Same to_validate_token vars r h s p =
      guarded_route-IsStable Same check_bearer-Same nothing (λ uid. uid) always
        (validate_token config) wire.validate_token r (λ q s p. p) s p
  serve-Same to_statement vars r h s p =
      with_payload-IsStable Same nothing (serve_statement config (vars (codes "tid")))
        (serve_statement-IsStable config Same get_task_statement-Same (vars (codes "tid"))) s p
  serve-Same to_attachment vars r h s p = absurd (ground arith)
  serve-Same to_health vars r h s p = p
  serve-Same to_set_mock_time vars r h s p =
      open_route-IsStable Same nothing always (handle_set_mock_time config) wire.set_mock_time r
        (λ q s p. p) s p
  serve-Same to_unmock_time vars r h s p =
      open_route-IsStable Same nothing always (λ q. handle_unmock_time config) wire.unmock_time r
        (λ q s p. p) s p

module _ {F B : Type 0} (config : Config F B) (wire : Wire F) where
  -- What a request that reaches the contest system has shown.
  abbrev pub Reaches : Incoming → Server F B → Endpoint → Type 0
  Reaches r s to_create_user = (q : CreateUserQuery) × (wire.create_user r.body ≡ some q)
  Reaches r s to_make_submission =
      (q : MakeSubmissionQuery) × (wire.make_submission r.body ≡ some q)
      × Authorized q.user r.authorization s.judge.db
  Reaches r s to_attachment = Unit
  Reaches r s _ = ⊥

  create_user-Reaches :
      (vars : Vars) (r : Incoming) (s : Server F B)
      → ((serve config wire to_create_user vars r s).1.contest ≡ s.contest)
        ⊎ Reaches r s to_create_user
  unfolding serve no_auth outer
  create_user-Reaches vars r s = elim (Option-cases (wire.create_user r.body)) [
    | inl bad ↦ inl (ground arith)
    | inr found ↦ inr found
  ]

  -- Naming the result changes no state.
  named_state :
      {R : Type 0} (f : R → Payload F) (x : Outcome (Response R) × Server F B)
      → (with_payload f (λ t. x) x.1).1 ≡ x.1
  unfolding with_payload
  named_state f (ok a, t) = refl
  named_state f (err e, t) = refl
  named_state f (panic m, t) = refl

  make_submission-Reaches :
      (vars : Vars) (r : Incoming) (s : Server F B)
      → ((serve config wire to_make_submission vars r s).1.contest ≡ s.contest)
        ⊎ Reaches r s to_make_submission
  unfolding serve
  make_submission-Reaches vars r s =
      let q = request wire.make_submission r in
      let m = with_user_auth (λ q. q.user) always (make_submission config) q in
      elim (with_user_auth-contest (λ q. q.user) always (make_submission config) q s) [
        | inl same ↦ inl (ap (λ t. t.contest) (named_state created (m s)) ∙ same)
        | inr shown ↦ inr shown
      ]

  -- Each endpoint leaves the contest system alone, or has been shown what it asks for.
  serve-Reaches :
      (e : Endpoint) (vars : Vars) (r : Incoming) (s : Server F B)
      → ((serve config wire e vars r s).1.contest ≡ s.contest) ⊎ Reaches r s e
  serve-Reaches to_create_user vars r s = create_user-Reaches vars r s
  serve-Reaches to_make_submission vars r s = make_submission-Reaches vars r s
  serve-Reaches to_attachment vars r s = inr tt
  serve-Reaches preflight vars r s =
      inl (serve-Same config wire s.contest preflight vars r refl s refl)
  serve-Reaches to_user_login vars r s =
      inl (serve-Same config wire s.contest to_user_login vars r refl s refl)
  serve-Reaches to_get_user vars r s =
      inl (serve-Same config wire s.contest to_get_user vars r refl s refl)
  serve-Reaches to_get_submissions vars r s =
      inl (serve-Same config wire s.contest to_get_submissions vars r refl s refl)
  serve-Reaches to_get_submission vars r s =
      inl (serve-Same config wire s.contest to_get_submission vars r refl s refl)
  serve-Reaches to_get_tasks vars r s =
      inl (serve-Same config wire s.contest to_get_tasks vars r refl s refl)
  serve-Reaches to_get_single_task vars r s =
      inl (serve-Same config wire s.contest to_get_single_task vars r refl s refl)
  serve-Reaches to_validate_token vars r s =
      inl (serve-Same config wire s.contest to_validate_token vars r refl s refl)
  serve-Reaches to_statement vars r s =
      inl (serve-Same config wire s.contest to_statement vars r refl s refl)
  serve-Reaches to_health vars r s =
      inl (serve-Same config wire s.contest to_health vars r refl s refl)
  serve-Reaches to_set_mock_time vars r s =
      inl (serve-Same config wire s.contest to_set_mock_time vars r refl s refl)
  serve-Reaches to_unmock_time vars r s =
      inl (serve-Same config wire s.contest to_unmock_time vars r refl s refl)

module _ {F B : Type 0} (config : Config F B) (router : Router) (wire : Wire F) where
  serve_route-Reaches :
      (o : Option (Route × Vars)) (r : Incoming) (s : Server F B)
      → ((serve_route config router wire o r s).1.contest ≡ s.contest)
        ⊎ ((t : Route) × (vars : Vars) × (o ≡ some (t, vars)) × Reaches config wire r s t.endpoint)
  unfolding serve_route
  serve_route-Reaches none r s = inl refl
  serve_route-Reaches (some (t, vars)) r s = elim (serve-Reaches config wire t.endpoint vars r s) [
    | inl same ↦ inl same
    | inr shown ↦ inr (t, vars, refl, shown)
  ]

  -- Whatever a request ends in, the contest system is as before, or the request was led to one of
  -- three endpoints: to the creation of a user, with a body that can be read; to an attachment; or to
  -- the creation of a submission, with a body that can be read and a header that shows the id and the
  -- secret of a stored token of the body's user.
  pub make_server-Reaches :
      (r : Incoming) (s : Server F B)
      → ((make_server config router wire r s).1.contest ≡ s.contest)
        ⊎ ((t : Route) × (vars : Vars) × (router.pick (routes config.debug) r.method r.path
              ≡ some (t, vars))
            × Reaches config wire r s t.endpoint)
  unfolding make_server
  make_server-Reaches r s =
      serve_route-Reaches (router.pick (routes config.debug) r.method r.path) r s
