-- ===== src/Judge/Routes/Calm.antt =====
-- Panics in the API functions that the routes of oiajudge/pkg/oiajudge/sever.go lead to, and in the
-- requests of the bridge.
use oiaj.Base.{arith}
use oiaj.Base.Int.{pos}
use oiaj.Text.Bytes.{Bytes}
use oiaj.Bridge.{ObjectId, Bridge, Sources}
use oiaj.Store.Action.{◌>>=◌, pure, gets}
use oiaj.Store.Action.Calm.{IsCalm, pure-IsCalm, >>=-IsCalm}
use oiaj.Store.Session.{with_tx}
use oiaj.Store.Session.Calm.{Quiet, with_tx-IsCalm, query_row-IsCalm, query-IsCalm}
use oiaj.Judge.Tables.{JudgeTx}
use oiaj.Judge.Users
use oiaj.Judge.Users.Calm.{get_user-IsCalm}
use oiaj.Judge.Submissions
use oiaj.Judge.Tasks
use oiaj.Judge.Server.{Config, Api, on_judge, on_contest, get_time}
use oiaj.Judge.Api.{
  MakeSubmissionQuery, CreateUserQuery, UserLoginQuery, admit_submission, register, login,
  can_user_submit, make_submission, create_user_api, get_user, get_submissions, get_submission,
  get_tasks, get_single_task, get_task_statement, get_attachment, handle_set_mock_time,
  handle_unmock_time, validate_token,
}
use oiaj.Judge.Api
use oiaj.Judge.Api.Calm.{IsTame, admit_submission-IsCalm, register-IsCalm, login-IsCalm}
use oiaj.Judge.Http.Calm.{Still, on_judge-IsCalm, on_contest-IsCalm}

-- The requests of the bridge return a value or an error from a contest system that is fine, and leave
-- it so.
pub record IsTameBridge {F B : Type 0} (Fine : B → Type 0) (bridge : Bridge F B) : Type 0 where
  pub creates : (name : Bytes) → IsCalm Fine (bridge.create_user name)
  pub submits :
      (user task : ObjectId) (sources : Sources)
      → IsCalm Fine (bridge.make_submission user task sources)
  pub attaches : (task : ObjectId) (name : Bytes) → IsCalm Fine (bridge.get_attachment task name)

module _ {F B : Type 0} (config : Config F B) (Fine : B → Type 0) where
  abbrev Calmly : {A : Type 0} → Api F B A → Type 0
  Calmly m = IsCalm (Still Fine) m

  run-IsCalm : {A : Type 0} (m : JudgeTx F A) → IsCalm Quiet m → Calmly (on_judge (with_tx m))
  run-IsCalm m h = on_judge-IsCalm Fine (with_tx m) (with_tx-IsCalm m h)

  module _ (tame : IsTame config.bcrypt) (kind : IsTameBridge Fine config.bridge) where
    pub make_submission-IsCalm : (q : MakeSubmissionQuery) → Calmly (make_submission config q)
    unfolding make_submission can_user_submit
    make_submission-IsCalm q =
        >>=-IsCalm (Still Fine) (can_user_submit config q)
          (λ u. on_contest (config.bridge.make_submission q.user q.task q.sources) >>= λ r.
            pure (pos 0))
          (>>=-IsCalm (Still Fine) (gets get_time)
            (λ now. on_judge (with_tx (admit_submission config.submission_cooldown now q.user)))
            (λ s g. record { state = g; returns = λ m p. ground arith })
            λ now.
              run-IsCalm (admit_submission config.submission_cooldown now q.user)
                (admit_submission-IsCalm config.submission_cooldown now q.user))
          λ u.
            >>=-IsCalm (Still Fine)
              (on_contest (config.bridge.make_submission q.user q.task q.sources))
              (λ r. pure (pos 0))
              (on_contest-IsCalm Fine (config.bridge.make_submission q.user q.task q.sources)
                (kind.submits q.user q.task q.sources))
              λ r. pure-IsCalm (Still Fine) (pos 0)

    pub create_user_api-IsCalm : (q : CreateUserQuery) → Calmly (create_user_api config q)
    unfolding create_user_api
    create_user_api-IsCalm q =
        >>=-IsCalm (Still Fine) (on_contest (config.bridge.create_user q.username))
          (λ id. on_judge (with_tx (register config.num config.bcrypt q id)))
          (on_contest-IsCalm Fine (config.bridge.create_user q.username) (kind.creates q.username))
          λ id.
            run-IsCalm (register config.num config.bcrypt q id)
              (register-IsCalm config.bcrypt tame config.num q id)

    pub user_login-IsCalm : (q : UserLoginQuery) → Calmly (Api.user_login config q)
    unfolding Api.user_login
    user_login-IsCalm q = run-IsCalm (login config.bcrypt q) (login-IsCalm config.bcrypt tame q)

  pub get_user-Calmly : (uid : ObjectId) → Calmly (get_user config uid)
  unfolding get_user
  get_user-Calmly uid = run-IsCalm (Users.get_user uid) (get_user-IsCalm uid)

  pub get_submissions-IsCalm : (task user : ObjectId) → Calmly (get_submissions config task user)
  unfolding get_submissions Submissions.get_submissions
  get_submissions-IsCalm task user =
      run-IsCalm (Submissions.get_submissions user task) (query-IsCalm _ _ λ d s m h. ground arith)

  pub get_submission-IsCalm : (id : ObjectId) → Calmly (get_submission config id)
  unfolding get_submission Submissions.get_submission
  get_submission-IsCalm id =
      run-IsCalm (Submissions.get_submission id) (query_row-IsCalm _ _ λ d s m h. ground arith)

  pub get_tasks-IsCalm : Calmly (get_tasks config)
  unfolding get_tasks Tasks.get_tasks
  get_tasks-IsCalm = run-IsCalm Tasks.get_tasks (query-IsCalm _ _ λ d s m h. ground arith)

  pub get_single_task-IsCalm : (id : ObjectId) → Calmly (get_single_task config id)
  unfolding get_single_task Tasks.get_single_task
  get_single_task-IsCalm id =
      run-IsCalm (Tasks.get_single_task id) (query_row-IsCalm _ _ λ d s m h. ground arith)

  pub get_task_statement-IsCalm : (id : ObjectId) → Calmly (get_task_statement config id)
  unfolding get_task_statement Tasks.get_task_statement
  get_task_statement-IsCalm id =
      run-IsCalm (Tasks.get_task_statement id) (query_row-IsCalm _ _ λ d s m h. ground arith)
