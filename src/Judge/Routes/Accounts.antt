-- ===== src/Judge/Routes/Accounts.antt =====
-- What the routes of `MakeServer` (oiajudge/pkg/oiajudge/sever.go) do to the scores and the clock.
use oiaj.Base.{◌≡◌, refl, true, Option, none, some}
use oiaj.Base.Int.{ℤ, pos}
use oiaj.Text.Bytes.{codes}
use oiaj.Bridge.{ObjectId}
use oiaj.Store.Action.{◌>>=◌, pure, gets}
use oiaj.Store.Session.{with_tx}
use oiaj.Store.Session.Keeping.{IsKeeping, query_row-IsKeeping, query-IsKeeping, with_tx-IsKeeping}
use oiaj.Judge.Tables.{Db, JudgeTx}
use oiaj.Judge.Users
use oiaj.Judge.Users.Accounts.{IsSettled}
use oiaj.Judge.Submissions
use oiaj.Judge.Tasks
use oiaj.Judge.Server.{Config, Api, on_judge, on_contest, get_time, set_mock_time, unmock_time}
use oiaj.Judge.Server.Keeping.{
  Holds, IsStable, >>=-IsStable, on_judge-IsStable, on_contest-IsStable,
}
use oiaj.Judge.Api.{
  MakeSubmissionQuery, CreateUserQuery, UserLoginQuery, admit_submission, register, login,
  can_user_submit, make_submission, create_user_api, get_user, get_submissions, get_submission,
  get_tasks, get_single_task, handle_set_mock_time, handle_unmock_time, validate_token,
}
use oiaj.Judge.Api
use oiaj.Judge.Api.Accounts.{admit_submission-IsSettled, register-IsSettled, login-IsSettled}
use oiaj.Judge.Http.{health, serve_statement, serve_attachment}
use oiaj.Judge.Http.Keeping.{
  check_bearer-IsStable, get_task_statement-IsStable, serve_statement-IsStable,
  serve_attachment-IsStable,
}
use oiaj.Judge.Routes.Keeping.{with_payload-IsStable, open_route-IsStable, guarded_route-IsStable}
use oiaj.Judge.Routes.{
  Endpoint, preflight, to_create_user, to_user_login, to_get_user, to_get_submissions,
  to_get_submission, to_make_submission, to_get_tasks, to_get_single_task, to_validate_token,
  to_statement, to_attachment, to_health, to_set_mock_time, to_unmock_time, is_mock, session,
  account, listing, single, created, all_tasks, one_task, nothing, always, Vars, Incoming, Wire,
  serve,
}

-- The transactions of the API functions that write keep what holds of the tables.
pub record IsClosed {F B : Type 0} (config : Config F B) (P : Db F → Type 0) : Type 0 where
  pub admits : (cooldown now : ℤ) (uid : ObjectId) → IsKeeping P (admit_submission cooldown now uid)
  pub registers :
      (q : CreateUserQuery) (id : ObjectId) → IsKeeping P (register config.num config.bcrypt q id)
  pub logs_in : (q : UserLoginQuery) → IsKeeping P (login config.bcrypt q)

pub IsSettled-IsClosed :
    {F B : Type 0} (config : Config F B) → IsClosed config (IsSettled config.num)
IsSettled-IsClosed config = record {
  admits = admit_submission-IsSettled config.num;
  registers = register-IsSettled config.num config.bcrypt;
  logs_in = login-IsSettled config.num config.bcrypt;
}

module _ {F B : Type 0} (config : Config F B) (P : Db F → Type 0) (M : Option ℤ → Type 0)
    (closed : IsClosed config P) where
  -- The scores are settled, and something holds of the instant that was set.
  abbrev Stable : {A : Type 0} → Api F B A → Type 0
  Stable m = IsStable (Holds P M) m

  run-IsStable : {A : Type 0} (m : JudgeTx F A) → IsKeeping P m → Stable (on_judge (with_tx m))
  run-IsStable m h = on_judge-IsStable P M (with_tx m) (with_tx-IsKeeping P m h)

  pub make_submission-IsStable : (q : MakeSubmissionQuery) → Stable (make_submission config q)
  unfolding make_submission can_user_submit
  make_submission-IsStable q =
      >>=-IsStable (Holds P M) (can_user_submit config q)
        (λ u.
          on_contest (config.bridge.make_submission q.user q.task q.sources) >>= λ r. pure (pos 0))
        (>>=-IsStable (Holds P M) (gets get_time)
          (λ now. on_judge (with_tx (admit_submission config.submission_cooldown now q.user)))
          (λ s p. p)
          λ now.
            run-IsStable (admit_submission config.submission_cooldown now q.user)
              (closed.admits config.submission_cooldown now q.user))
        λ u.
          >>=-IsStable (Holds P M)
            (on_contest (config.bridge.make_submission q.user q.task q.sources)) (λ r. pure (pos 0))
            (on_contest-IsStable P M (config.bridge.make_submission q.user q.task q.sources))
            λ r s p. p

  pub create_user_api-IsStable : (q : CreateUserQuery) → Stable (create_user_api config q)
  unfolding create_user_api
  create_user_api-IsStable q =
      >>=-IsStable (Holds P M) (on_contest (config.bridge.create_user q.username))
        (λ cms_uid. on_judge (with_tx (register config.num config.bcrypt q cms_uid)))
        (on_contest-IsStable P M (config.bridge.create_user q.username))
        λ cms_uid.
          run-IsStable (register config.num config.bcrypt q cms_uid) (closed.registers q cms_uid)

  pub user_login-IsStable : (q : UserLoginQuery) → Stable (Api.user_login config q)
  unfolding Api.user_login
  user_login-IsStable q = run-IsStable (login config.bcrypt q) (closed.logs_in q)

  pub get_user-IsStable : (uid : ObjectId) → Stable (get_user config uid)
  unfolding get_user Users.get_user
  get_user-IsStable uid = run-IsStable (Users.get_user uid) (query_row-IsKeeping P _ _ λ d s h. h)

  pub get_submissions-IsStable : (task user : ObjectId) → Stable (get_submissions config task user)
  unfolding get_submissions Submissions.get_submissions
  get_submissions-IsStable task user =
      run-IsStable (Submissions.get_submissions user task) (query-IsKeeping P _ _)

  pub get_submission-IsStable : (id : ObjectId) → Stable (get_submission config id)
  unfolding get_submission Submissions.get_submission
  get_submission-IsStable id =
      run-IsStable (Submissions.get_submission id) (query_row-IsKeeping P _ _ λ d s h. h)

  pub get_tasks-IsStable : Stable (get_tasks config)
  unfolding get_tasks Tasks.get_tasks
  get_tasks-IsStable = run-IsStable Tasks.get_tasks (query-IsKeeping P _ _)

  pub get_single_task-IsStable : (id : ObjectId) → Stable (get_single_task config id)
  unfolding get_single_task Tasks.get_single_task
  get_single_task-IsStable id =
      run-IsStable (Tasks.get_single_task id) (query_row-IsKeeping P _ _ λ d s h. h)

module _ {F B : Type 0} (config : Config F B) (wire : Wire F) (P : Db F → Type 0)
    (M : Option ℤ → Type 0) (closed : IsClosed config P) where
  abbrev Quiet : {A : Type 0} → Api F B A → Type 0
  Quiet m = IsStable (Holds P M) m

  handle_set_mock_time-IsStable :
      ((o : Option ℤ) → M o) → (t : ℤ) → Quiet (handle_set_mock_time config t)
  unfolding handle_set_mock_time set_mock_time
  handle_set_mock_time-IsStable any t s p = (p.0, any (some t))

  handle_unmock_time-IsStable : ((o : Option ℤ) → M o) → Quiet (handle_unmock_time config)
  unfolding handle_unmock_time unmock_time
  handle_unmock_time-IsStable any s p = (p.0, any none)

  -- Only a debug endpoint changes the instant that was set.
  pub serve-IsStable :
      (e : Endpoint) (vars : Vars) (r : Incoming)
      → (is_mock e ≡ true → (o : Option ℤ) → M o)
      → Quiet (serve config wire e vars r)
  unfolding serve is_mock health validate_token
  serve-IsStable preflight vars r h s p = p
  serve-IsStable to_create_user vars r h s p =
      open_route-IsStable (Holds P M) session always (create_user_api config) wire.create_user r
        (create_user_api-IsStable config P M closed) s p
  serve-IsStable to_user_login vars r h s p =
      open_route-IsStable (Holds P M) session always (Api.user_login config) wire.user_login r
        (user_login-IsStable config P M closed) s p
  serve-IsStable to_get_user vars r h s p =
      guarded_route-IsStable (Holds P M) (check_bearer-IsStable P M) account (λ uid. uid)
        wire.user_fits (get_user config) wire.get_user r (get_user-IsStable config P M closed) s p
  serve-IsStable to_get_submissions vars r h s p =
      open_route-IsStable (Holds P M) listing wire.submissions_fit
        (λ q. get_submissions config q.0 q.1) wire.get_submissions r
        (λ q. get_submissions-IsStable config P M closed q.0 q.1) s p
  serve-IsStable to_get_submission vars r h s p =
      open_route-IsStable (Holds P M) single wire.submission_fits (get_submission config)
        wire.get_submission r (get_submission-IsStable config P M closed) s p
  serve-IsStable to_make_submission vars r h s p =
      guarded_route-IsStable (Holds P M) (check_bearer-IsStable P M) created (λ q. q.user) always
        (make_submission config) wire.make_submission r (make_submission-IsStable config P M closed)
        s p
  serve-IsStable to_get_tasks vars r h s p =
      open_route-IsStable (Holds P M) all_tasks wire.tasks_fit (λ q. get_tasks config)
        wire.get_tasks r (λ q. get_tasks-IsStable config P M closed) s p
  serve-IsStable to_get_single_task vars r h s p =
      open_route-IsStable (Holds P M) one_task wire.task_fits (get_single_task config)
        wire.get_single_task r (get_single_task-IsStable config P M closed) s p
  serve-IsStable to_validate_token vars r h s p =
      guarded_route-IsStable (Holds P M) (check_bearer-IsStable P M) nothing (λ uid. uid) always
        (validate_token config) wire.validate_token r (λ uid s p. p) s p
  serve-IsStable to_statement vars r h s p =
      with_payload-IsStable (Holds P M) nothing (serve_statement config (vars (codes "tid")))
        (serve_statement-IsStable config (Holds P M) (get_task_statement-IsStable config P M)
          (vars (codes "tid")))
        s p
  serve-IsStable to_attachment vars r h s p =
      with_payload-IsStable (Holds P M) nothing
        (serve_attachment config (r.query (codes "filename")) (r.query (codes "task_id")))
        (serve_attachment-IsStable config P M (r.query (codes "filename"))
          (r.query (codes "task_id")))
        s p
  serve-IsStable to_health vars r h s p = p
  serve-IsStable to_set_mock_time vars r h s p =
      open_route-IsStable (Holds P M) nothing always (handle_set_mock_time config)
        wire.set_mock_time r (handle_set_mock_time-IsStable (h refl)) s p
  serve-IsStable to_unmock_time vars r h s p =
      open_route-IsStable (Holds P M) nothing always (λ q. handle_unmock_time config)
        wire.unmock_time r (λ q. handle_unmock_time-IsStable (h refl)) s p
