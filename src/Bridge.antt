-- ===== src/Bridge.antt =====
-- oiajudge/pkg/bridge: what the judge and a contest system exchange. `F` stands for float64, of
-- which the sources use the operations of `Arith` below; it also has what `encoding/json` does to
-- the strings and the instants of these types.
use oiaj.Base.{Bool, Option, List}
use oiaj.Base.Int.{ℤ}
use oiaj.Text.Bytes.{Bytes}
use oiaj.Store.Action.{Action}

-- `bridge.Id`, an int64.
abbrev pub ObjectId : Type 0
ObjectId = ℤ

-- The operations on float64: IEEE arithmetic is Go's and PostgreSQL's, not the repository's.
-- `to_real` is what a REAL column keeps of a float64, and `is_finite` is what JSON can carry.
-- `text_of` is the string that comes back from a JSON document (bytes that are not UTF-8 are
-- replaced), and `has_year` says of an instant that `Time.MarshalJSON` accepts its year.
pub record Arith (F : Type 0) : Type 0 where
  pub zero : F
  pub one : F
  pub add : F → F → F
  pub sub : F → F → F
  pub mul : F → F → F
  pub max : F → F → F
  pub to_real : F → F
  pub is_finite : F → Bool
  pub text_of : Bytes → Bytes
  pub has_year : ℤ → Bool

pub record Score (F : Type 0) : Type 0 where
  pub score : F
  pub max_score : F

pub record TestcaseResult (F : Type 0) : Type 0 where
  pub testcase : Bytes
  pub score : Score F
  pub execution_time : F
  pub memory_usage : ℤ
  pub message : Bytes

pub record SubtaskResult (F : Type 0) : Type 0 where
  pub subtask : ℤ
  pub score : Score F
  pub testcases : List Bytes

pub record SubmissionResult (F : Type 0) : Type 0 where
  pub score : Score F
  pub subtasks : List (SubtaskResult F)
  pub testcases : List (TestcaseResult F)

pub data SubmissionStatus : Type 0 where
  unset compiling compilation_failed evaluating scoring scored : SubmissionStatus

-- `timestamp` is an instant in nanoseconds since 1970.
pub record Submission (F : Type 0) : Type 0 where
  pub id : ObjectId
  pub user_id : ObjectId
  pub problem_id : ObjectId
  pub submission_status : SubmissionStatus
  pub timestamp : ℤ
  pub compilation_message : Bytes
  pub result : Option (SubmissionResult F)
  pub deleted : Bool

pub record Task (F : Type 0) : Type 0 where
  pub id : ObjectId
  pub name : Bytes
  pub title : Bytes
  pub tags : List Bytes
  pub statement : Bytes
  pub deleted : Bool
  pub max_score : F
  pub multiplier : F
  pub submission_format : List Bytes
  pub attachments : List Bytes

-- A source file of a submission: its name and its content.
abbrev pub Sources : Type 0
Sources = List (Bytes × Bytes)

-- `type Bridge interface`, over the state `B` of the contest system.
pub record Bridge (F B : Type 0) : Type 0 where
  pub create_user : Bytes → Action B ObjectId
  pub get_submission : ObjectId → Action B (Submission F)
  pub get_task : ObjectId → Action B (Task F)
  pub make_submission : ObjectId → ObjectId → Sources → Action B Unit
  pub get_attachment : ObjectId → Bytes → Action B Bytes

pub data EventType : Type 0 where
  submission task : EventType
  unknown : Bytes → EventType

pub record Event : Type 0 where
  pub event_id : ObjectId
  pub object_id : ObjectId
  pub event_type : EventType
