-- ===== src/Judge/Api.antt =====
-- The API functions of oiajudge/pkg/oiajudge/api.go.
pub mod Cooldown
pub mod Session
pub mod Admission
pub mod Accounts
pub mod Calm
use oiaj.Base.{◌-◌, ◌^◌, List, [], if◌then◌else◌}
use oiaj.Base.Int.{ℤ, pos, ◌+ℤ◌, ◌-ℤ◌, ltb_ℤ}
use oiaj.Text.Bytes.{Bytes}
use oiaj.Bridge.{ObjectId, Arith, Submission, Task, Sources}
use oiaj.Store.Errors.{Error, text, wait_before_retry, plain, oia_caused, Outcome, ok, err, panic}
use oiaj.Store.Action.{◌>>=◌, ◌>>◌, pure, throw, recover, lift, gets}
use oiaj.Store.Session.{with_tx, read_random}
use oiaj.Judge.Tables.{JudgeTx}
use oiaj.Judge.Users.{
  DbUser, create_user, create_user_token, get_user_password_and_id, last_user_submission,
  set_user_submission,
}
use oiaj.Judge.Users
use oiaj.Judge.Submissions
use oiaj.Judge.Tasks
use oiaj.Judge.Server.{
  Bcrypt, Config, Api, on_judge, on_contest, get_time, set_mock_time, unmock_time,
}

pub record MakeSubmissionQuery : Type 0 where
  pub task : ObjectId
  pub user : ObjectId
  pub sources : Sources

pub record CreateUserQuery : Type 0 where
  pub username : Bytes
  pub password : Bytes
  pub school : Bytes
  pub email : Bytes
  pub name : Bytes

-- The response of `/user/create` and of `/user/login`.
pub record UserSession : Type 0 where
  pub user_id : ObjectId
  pub token : Bytes

pub record UserLoginQuery : Type 0 where
  pub username : Bytes
  pub password : Bytes

-- `Time.Sub` stops at the largest duration.
saturate : ℤ → ℤ
saturate d = if ltb_ℤ d (pos (2 ^ 63)) then d else pos (2 ^ 63 - 1)

-- The error of a request that comes too early.
unfoldable pub too_many_requests : ℤ → Error
unfolding saturate
too_many_requests wait =
    let message = wait_before_retry (saturate wait) in oia_caused 429 message (plain message)

module _ {F : Type 0} where
  -- The error of `SetUserSubmission` is dropped.
  decide_submission : ℤ → ℤ → ObjectId → ℤ → JudgeTx F Unit
  unfolding set_user_submission too_many_requests
  decide_submission cooldown now uid last_submission =
      if ltb_ℤ now (last_submission +ℤ cooldown)
      then throw (too_many_requests (last_submission +ℤ cooldown -ℤ now))
      else recover (set_user_submission uid now) (λ e. pure tt)

  -- The body of `CanUserSubmit`.
  unfoldable pub admit_submission : ℤ → ℤ → ObjectId → JudgeTx F Unit
  unfolding last_user_submission decide_submission
  admit_submission cooldown now uid = do
    last_submission ← last_user_submission uid
    decide_submission cooldown now uid last_submission

  -- The ends of `CreateUser` and `UserLogin`.
  open_session : ObjectId → JudgeTx F UserSession
  unfolding create_user_token
  open_session uid = do
    token ← create_user_token uid
    pure (record { user_id = uid; token = token })

  make_user : Arith F → Bcrypt → CreateUserQuery → ObjectId → JudgeTx F ObjectId
  unfolding create_user
  make_user num bcrypt q cms_uid = do
    salt ← read_random
    password_hash ← lift (bcrypt.generate salt q.password)
    create_user num q.email q.username cms_uid password_hash

  -- The body of `CreateUser`, after the contest system has answered.
  unfoldable pub register : Arith F → Bcrypt → CreateUserQuery → ObjectId → JudgeTx F UserSession
  unfolding make_user open_session
  register num bcrypt q cms_uid = do uid ← make_user num bcrypt q cms_uid; open_session uid

  -- An unknown user leaves the hash empty.
  no_user : Error → JudgeTx F (Bytes × ObjectId)
  no_user e = pure ([], pos 0)

  check_password : Outcome Unit → JudgeTx F Unit
  check_password (ok u) = pure tt
  check_password (err e) = throw (oia_caused 401 (text "") e)
  check_password (panic m) = lift (panic m)

  enter : Bcrypt → Bytes → Bytes × ObjectId → JudgeTx F UserSession
  unfolding check_password open_session
  enter bcrypt password (hash, uid) =
      check_password (bcrypt.compare_hash hash password) >> open_session uid

  -- The body of `UserLogin`.
  unfoldable pub login : Bcrypt → UserLoginQuery → JudgeTx F UserSession
  unfolding get_user_password_and_id no_user enter
  login bcrypt q = do
    found ← recover (get_user_password_and_id q.username) no_user
    enter bcrypt q.password found

module _ {F B : Type 0} (config : Config F B) where
  -- `CanUserSubmit`
  unfoldable pub can_user_submit : MakeSubmissionQuery → Api F B Unit
  unfolding admit_submission get_time
  can_user_submit q = do
    now ← gets get_time
    on_judge (with_tx (admit_submission config.submission_cooldown now q.user))

  -- `MakeSubmission`: the field of the response is never set.
  unfoldable pub make_submission : MakeSubmissionQuery → Api F B ObjectId
  unfolding can_user_submit
  make_submission q = do
    can_user_submit q
    on_contest (config.bridge.make_submission q.user q.task q.sources)
    pure (pos 0)

  -- `CreateUser`
  unfoldable pub create_user_api : CreateUserQuery → Api F B UserSession
  unfolding register
  create_user_api q = do
    cms_uid ← on_contest (config.bridge.create_user q.username)
    on_judge (with_tx (register config.num config.bcrypt q cms_uid))

  -- `UserLogin`
  unfoldable pub user_login : UserLoginQuery → Api F B UserSession
  unfolding login
  user_login q = on_judge (with_tx (login config.bcrypt q))

  -- `GetSubmissions`
  unfoldable pub get_submissions : ObjectId → ObjectId → Api F B (List (Submission F))
  unfolding Submissions.get_submissions
  get_submissions task user = on_judge (with_tx (Submissions.get_submissions user task))

  -- `GetSubmission`
  unfoldable pub get_submission : ObjectId → Api F B (Submission F)
  unfolding Submissions.get_submission
  get_submission submission = on_judge (with_tx (Submissions.get_submission submission))

  -- `GetUser`
  unfoldable pub get_user : ObjectId → Api F B (DbUser F)
  unfolding Users.get_user
  get_user uid = on_judge (with_tx (Users.get_user uid))

  -- `GetTasks`
  unfoldable pub get_tasks : Api F B (List (Task F))
  unfolding Tasks.get_tasks
  get_tasks = on_judge (with_tx Tasks.get_tasks)

  -- `GetSingleTask`
  unfoldable pub get_single_task : ObjectId → Api F B (Task F)
  unfolding Tasks.get_single_task
  get_single_task id = on_judge (with_tx (Tasks.get_single_task id))

  -- `GetTaskStatement`
  unfoldable pub get_task_statement : ObjectId → Api F B Bytes
  unfolding Tasks.get_task_statement
  get_task_statement tid = on_judge (with_tx (Tasks.get_task_statement tid))

  -- `GetAttachment`
  unfoldable pub get_attachment : ObjectId → Bytes → Api F B Bytes
  get_attachment tid filename = on_contest (config.bridge.get_attachment tid filename)

  -- `ValidateToken`
  unfoldable pub validate_token : ObjectId → Api F B Unit
  validate_token uid = pure tt

  -- `HandleSetMockTime`
  unfoldable pub handle_set_mock_time : ℤ → Api F B Unit
  unfolding set_mock_time
  handle_set_mock_time t s = (ok tt, set_mock_time t s)

  -- `HandleUnmockTime`
  unfoldable pub handle_unmock_time : Api F B Unit
  unfolding unmock_time
  handle_unmock_time s = (ok tt, unmock_time s)
