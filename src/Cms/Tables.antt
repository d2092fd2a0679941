-- ===== src/Cms/Tables.antt =====
-- The tables of the contest system that oiajudge/pkg/cmsbridge names in its statements, with the
-- columns that it names, and the queue of oiajudge/pkg/cmsbridge/migrations/001.sql.
use oiaj.Base.{ℕ, Bool, Option, List}
use oiaj.Base.Int.{ℤ}
use oiaj.Text.Bytes.{Bytes}
use oiaj.Bridge.{ObjectId}
use oiaj.Store.Errors.{Error}
use oiaj.Store.Session.{World, Tx, Statement}

-- `users`
pub record CmsUser : Type 0 where
  pub id : ObjectId
  pub username : Bytes
  pub password : Bytes
  pub first_name : Bytes
  pub last_name : Bytes
  pub preferred_languages : List Bytes

-- `participations`
pub record Participation : Type 0 where
  pub id : ObjectId
  pub user_id : ObjectId
  pub contest_id : ObjectId
  pub hidden : Bool
  pub unrestricted : Bool
  pub delay_time : ℤ
  pub extra_time : ℤ

-- `tasks`
pub record CmsTask : Type 0 where
  pub id : ObjectId
  pub name : Bytes
  pub title : Bytes
  pub submission_format : List Bytes

-- `datasets`
pub record Dataset : Type 0 where
  pub id : ObjectId
  pub task_id : ObjectId
  pub description : Bytes
  pub score_type : Bytes
  pub score_type_parameters : Bytes

-- `testcases`
pub record TestcaseRow : Type 0 where
  pub id : ObjectId
  pub dataset_id : ObjectId
  pub codename : Bytes

-- `submissions`; the participation is NULL where its SELECT found none.
pub record CmsSubmission : Type 0 where
  pub id : ObjectId
  pub participation_id : Option ObjectId
  pub task_id : ObjectId
  pub timestamp : ℤ
  pub language : Bytes
  pub comment : Bytes
  pub official : Bool

-- `submission_results`
pub record ResultRow (F : Type 0) : Type 0 where
  pub submission_id : ObjectId
  pub compilation_outcome : Option Bytes
  pub compilation_stderr : Option Bytes
  pub evaluation_outcome : Option Bytes
  pub score : Option F
  pub score_details : Option Bytes

-- `evaluations`; a NULL text is no message.
pub record Evaluation (F : Type 0) : Type 0 where
  pub submission_id : ObjectId
  pub testcase_id : ObjectId
  pub outcome : Option Bytes
  pub messages : List Bytes
  pub execution_time : Option F
  pub execution_memory : Option ℤ

-- `files`, `attachments`, `statements` and `fsobjects` name a content by its digest;
-- `pg_largeobject` holds its pages.
pub record FileRow : Type 0 where
  pub submission_id : ObjectId
  pub filename : Bytes
  pub digest : Bytes

pub record Attachment : Type 0 where
  pub task_id : ObjectId
  pub filename : Bytes
  pub digest : Bytes

pub record StatementRow : Type 0 where
  pub task_id : ObjectId
  pub digest : Bytes

pub record FsObject : Type 0 where
  pub digest : Bytes
  pub loid : ℕ

pub record Page : Type 0 where
  pub loid : ℕ
  pub pageno : ℕ
  pub content : Bytes

-- `event_queue`
pub record QueueRow : Type 0 where
  pub id : ObjectId
  pub foreign_id : ObjectId
  pub object_type : Bytes
  pub seen : Bool

pub record CmsDb (F : Type 0) : Type 0 where
  pub users : List CmsUser
  pub participations : List Participation
  pub tasks : List CmsTask
  pub datasets : List Dataset
  pub testcases : List TestcaseRow
  pub submissions : List CmsSubmission
  pub results : List (ResultRow F)
  pub evaluations : List (Evaluation F)
  pub files : List FileRow
  pub attachments : List Attachment
  pub statements : List StatementRow
  pub objects : List FsObject
  pub pages : List Page
  pub queue : List QueueRow

-- The last number that each sequence has drawn.
pub record CmsSequences : Type 0 where
  pub users : ℕ
  pub participations : ℕ
  pub submissions : ℕ
  pub events : ℕ
  pub large_objects : ℕ

abbrev pub CmsTx : Type 0 → Type 0 → Type 0
CmsTx F A = Tx (CmsDb F) CmsSequences A

abbrev pub CmsWorld : Type 0 → Type 0
CmsWorld F = World (CmsDb F) CmsSequences

abbrev pub CmsSql : Type 0 → Type 0 → Type 0
CmsSql F A = Statement (CmsDb F) CmsSequences A

-- The constraints of the contest system's own schema, which is not in the repository: what, if
-- anything, forbids a new row.
pub record Schema (F : Type 0) : Type 0 where
  pub user_violation : CmsUser → CmsDb F → Option Error
  pub participation_violation : Participation → CmsDb F → Option Error
  pub submission_violation : CmsSubmission → CmsDb F → Option Error
  pub object_violation : FsObject → CmsDb F → Option Error
  pub file_violation : FileRow → CmsDb F → Option Error
