-- ===== src/Judge/Tables.antt =====
-- The tables of oiajudge/pkg/oiajudge/migrations, after all four migrations.
use oiaj.Base.{ℕ, Bool, Option, List, any}
use oiaj.Base.Int.{ℤ, eq_ℤ}
use oiaj.Text.Bytes.{Bytes}
use oiaj.Bridge.{ObjectId, SubmissionStatus, SubmissionResult}
use oiaj.Store.Session.{World, Tx, Statement}

-- `oia_user`
pub record UserRow (F : Type 0) : Type 0 where
  pub id : ObjectId
  pub email : Bytes
  pub is_email_verified : Bool
  pub username : Bytes
  pub password_hash : Bytes
  pub score : F
  pub last_submission_ms : ℤ

-- `oia_tokens`
pub record TokenRow : Type 0 where
  pub id : ObjectId
  pub user_id : ObjectId
  pub secret : Bytes

-- The JSON text that `json.Marshal` writes for a submission, as the fields that it holds: `Deleted`
-- carries the tag `json:"-"`.
pub record Details (F : Type 0) : Type 0 where
  pub id : ObjectId
  pub user_id : ObjectId
  pub problem_id : ObjectId
  pub submission_status : SubmissionStatus
  pub timestamp : ℤ
  pub compilation_message : Bytes
  pub result : Option (SubmissionResult F)

-- `oia_submissions`; `subtask_details` is a JSON array of numbers.
pub record SubmissionRow (F : Type 0) : Type 0 where
  pub id : ObjectId
  pub user_id : ObjectId
  pub task_id : ObjectId
  pub details : Details F
  pub subtask_details : List F

-- `oia_task`
pub record TaskRow (F : Type 0) : Type 0 where
  pub id : ObjectId
  pub title : Bytes
  pub name : Bytes
  pub statement : Bytes
  pub max_score : F
  pub submission_format : List Bytes
  pub tags : List Bytes
  pub multiplier : F
  pub attachments : List Bytes

-- `oia_task_score`, with the primary key (user_id, task_id).
pub record TaskScoreRow (F : Type 0) : Type 0 where
  pub user_id : ObjectId
  pub task_id : ObjectId
  pub score : F
  pub base_score : F

pub record Db (F : Type 0) : Type 0 where
  pub users : List (UserRow F)
  pub tokens : List TokenRow
  pub submissions : List (SubmissionRow F)
  pub tasks : List (TaskRow F)
  pub task_scores : List (TaskScoreRow F)

-- The one sequence that the judge draws from is that of `oia_tokens.id`: the last number drawn.
abbrev pub JudgeTx : Type 0 → Type 0 → Type 0
JudgeTx F A = Tx (Db F) ℕ A

abbrev pub JudgeWorld : Type 0 → Type 0
JudgeWorld F = World (Db F) ℕ

abbrev pub Sql : Type 0 → Type 0 → Type 0
Sql F A = Statement (Db F) ℕ A

-- The foreign keys to `oia_user(id)`.
abbrev pub has_user : {F : Type 0} → ObjectId → Db F → Bool
has_user uid d = any (λ u. eq_ℤ u.id uid) d.users
