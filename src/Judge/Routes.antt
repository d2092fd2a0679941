-- ===== src/Judge/Routes.antt =====
-- `MakeServer` of oiajudge/pkg/oiajudge/sever.go: the table of routes, and what each of them calls.
pub mod Keeping
pub mod Accounts
pub mod Calm
pub mod Answers
pub mod Contest
pub mod Debug
use oiaj.Base.{
  ℕ, ◌≡◌, Bool, true, false, ◌&&◌, Option, none, some, List, [], ◌∷◌, ◌++◌, if◌then◌else◌,
}
use mathlib.Core.List.{Memᴰ}
use oiaj.Base.Int.{ℤ}
use oiaj.Text.Bytes.{Bytes, codes, bytes_eq}
use oiaj.Bridge.{ObjectId, Submission, Task}
use oiaj.Store.Errors.{Outcome}
use oiaj.Store.Action.{◌>>=◌, pure}
use oiaj.Judge.Users.{DbUser}
use oiaj.Judge.Server.{Config, Server, Api}
use oiaj.Judge.Api.{
  MakeSubmissionQuery, CreateUserQuery, UserLoginQuery, UserSession, make_submission,
  create_user_api, get_user, get_submissions, get_submission, get_tasks, get_single_task,
  validate_token, handle_set_mock_time, handle_unmock_time,
}
use oiaj.Judge.Api
use oiaj.Judge.Http.{
  Request, Body, Response, no_auth, with_user_auth, health, serve_statement, serve_attachment,
}

pub data Method : Type 0 where
  get post options : Method
  other_method : Bytes → Method

-- What the routes lead to.
pub data Endpoint : Type 0 where
  preflight to_create_user to_user_login to_get_user to_get_submissions to_get_submission
        to_make_submission to_get_tasks to_get_single_task to_validate_token to_statement
        to_attachment to_health to_set_mock_time to_unmock_time :
      Endpoint

-- The endpoints of the debug APIs.
unfoldable pub is_mock : Endpoint → Bool
is_mock to_set_mock_time = true
is_mock to_unmock_time = true
is_mock _ = false

pub record Route : Type 0 where
  pub method : Method
  pub template : Bytes
  pub endpoint : Endpoint

abbrev route : Method → Bytes → Endpoint → Route
route m t e = record { method = m; template = t; endpoint = e }

debug_routes : List Route
debug_routes =
    route post (codes "/mock/time/set") to_set_mock_time
    ∷ route post (codes "/mock/time/unset") to_unmock_time
    ∷ []

-- The routes in the order in which they are added.
unfoldable pub routes : Bool → List Route
unfolding debug_routes
routes debug =
    route options (codes "/{any:.*}") preflight
    ∷ route post (codes "/user/create") to_create_user
    ∷ route post (codes "/user/login") to_user_login
    ∷ route post (codes "/user/get") to_get_user
    ∷ route post (codes "/submissions/get") to_get_submissions
    ∷ route post (codes "/submissions/get/single") to_get_submission
    ∷ route post (codes "/submission/create") to_make_submission
    ∷ route post (codes "/task/get") to_get_tasks
    ∷ route post (codes "/task/get/single") to_get_single_task
    ∷ route post (codes "/token/validate") to_validate_token
    ∷ route get (codes "/task/statement/{tid}") to_statement
    ∷ route get (codes "/task/attachment") to_attachment
    ∷ route get (codes "/health") to_health
    ∷ (if debug then debug_routes else [])

-- What a template's variables stand for.
abbrev pub Vars : Type 0
Vars = Bytes → Option Bytes

-- github.com/gorilla/mux: the route of a table that serves a request, with the variables of its path,
-- and the status and the text of its own answer where there is none.
pub record Router : Type 0 where
  pub pick : List Route → Method → Bytes → Option (Route × Vars)
  pub refusal : Method → Bytes → ℕ × Bytes

-- What is served is one of the table's routes.
pub record IsRouter (router : Router) : Type 0 where
  pub among :
      (ts : List Route) (m : Method) (path : Bytes) (t : Route) (vars : Vars)
      → router.pick ts m path ≡ some (t, vars)
      → Memᴰ t ts

-- A request; `query` is `r.URL.Query().Get`.
pub record Incoming : Type 0 where
  pub method : Method
  pub path : Bytes
  pub authorization : Bytes
  pub query : Bytes → Bytes
  pub body : Bytes

-- encoding/json on the types of api.go: what a body decodes to, `none` where that fails, and which
-- results can be encoded. A query with one field is that field.
pub record Wire (F : Type 0) : Type 0 where
  pub create_user : Bytes → Option CreateUserQuery
  pub user_login : Bytes → Option UserLoginQuery
  pub get_user : Bytes → Option ObjectId
  pub get_submissions : Bytes → Option (ObjectId × ObjectId)
  pub get_submission : Bytes → Option ObjectId
  pub make_submission : Bytes → Option MakeSubmissionQuery
  pub get_tasks : Bytes → Option {0} Unit
  pub get_single_task : Bytes → Option ObjectId
  pub validate_token : Bytes → Option ObjectId
  pub set_mock_time : Bytes → Option ℤ
  pub unmock_time : Bytes → Option {0} Unit
  pub user_fits : DbUser F → Bool
  pub submissions_fit : List (Submission F) → Bool
  pub submission_fits : Submission F → Bool
  pub tasks_fit : List (Task F) → Bool
  pub task_fits : Task F → Bool

-- The results of the API functions.
pub data Payload (F : Type 0) : Type 0 where
  nothing : Unit {0} → Payload F
  session : UserSession → Payload F
  account : DbUser F → Payload F
  listing : List (Submission F) → Payload F
  single : Submission F → Payload F
  created : ObjectId → Payload F
  all_tasks : List (Task F) → Payload F
  one_task : Task F → Payload F

wrap_body : {R P : Type 0} → (R → P) → Body R → Body P
wrap_body f Body.empty = Body.empty
wrap_body f (Body.json r) = Body.json (f r)
wrap_body f (Body.raw b) = Body.raw b
wrap_body f (Body.error_text e) = Body.error_text e
wrap_body f (Body.unexpected_error e) = Body.unexpected_error e
wrap_body f (Body.literal t) = Body.literal t

abbrev always : {R : Type 0} → R → Bool
always r = true

unfoldable pub wrap : {R P : Type 0} → (R → P) → Response R → Response P
unfolding wrap_body
wrap f r = record { status = r.status; body = wrap_body f r.body }

abbrev request : {Q : Type 0} → (Bytes → Option Q) → Incoming → Request Q
request decode r = record { body = decode r.body; authorization = r.authorization }

module _ {F B : Type 0} where
  unfoldable pub with_payload :
      {R : Type 0} → (R → Payload F) → Api F B (Response R) → Api F B (Response (Payload F))
  unfolding wrap
  with_payload f m = do r ← m; pure (wrap f r)

  module _ (config : Config F B) (wire : Wire F) where
    unfoldable pub serve : Endpoint → Vars → Incoming → Api F B (Response (Payload F))
    unfolding with_payload
    serve preflight vars r = pure (record { status = 200; body = Body.empty })
    serve to_create_user vars r =
        with_payload session (no_auth always (create_user_api config) (request wire.create_user r))
    serve to_user_login vars r =
        with_payload session (no_auth always (Api.user_login config) (request wire.user_login r))
    serve to_get_user vars r =
        with_payload account
          (with_user_auth (λ uid. uid) wire.user_fits (get_user config) (request wire.get_user r))
    serve to_get_submissions vars r = with_payload listing (
        no_auth wire.submissions_fit (λ q. get_submissions config q.0 q.1)
          (request wire.get_submissions r))
    serve to_get_submission vars r =
        with_payload single
          (no_auth wire.submission_fits (get_submission config) (request wire.get_submission r))
    serve to_make_submission vars r = with_payload created (
        with_user_auth (λ q. q.user) always (make_submission config)
          (request wire.make_submission r))
    serve to_get_tasks vars r =
        with_payload all_tasks
          (no_auth wire.tasks_fit (λ q. get_tasks config) (request wire.get_tasks r))
    serve to_get_single_task vars r =
        with_payload one_task
          (no_auth wire.task_fits (get_single_task config) (request wire.get_single_task r))
    serve to_validate_token vars r =
        with_payload nothing (
          with_user_auth (λ uid. uid) always (validate_token config)
            (request wire.validate_token r))
    serve to_statement vars r = with_payload nothing (serve_statement config (vars (codes "tid")))
    serve to_attachment vars r =
        with_payload nothing
          (serve_attachment config (r.query (codes "filename")) (r.query (codes "task_id")))
    serve to_health vars r = with_payload nothing health
    serve to_set_mock_time vars r =
        with_payload nothing
          (no_auth always (handle_set_mock_time config) (request wire.set_mock_time r))
    serve to_unmock_time vars r =
        with_payload nothing
          (no_auth always (λ q. handle_unmock_time config) (request wire.unmock_time r))

module _ {F B : Type 0} (config : Config F B) (router : Router) (wire : Wire F) where
  unfoldable pub serve_route : Option (Route × Vars) → Incoming → Api F B (Response (Payload F))
  unfolding serve
  serve_route none r = pure (record {
    status = (router.refusal r.method r.path).0;
    body = Body.raw (router.refusal r.method r.path).1;
  })
  serve_route (some (t, vars)) r = serve config wire t.endpoint vars r

  -- `MakeServer`
  unfoldable pub make_server : Incoming → Api F B (Response (Payload F))
  unfolding serve_route routes
  make_server r = serve_route (router.pick (routes config.debug) r.method r.path) r
