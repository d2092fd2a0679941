-- ===== src/Cms/Submissions.antt =====
-- `GetSubmission` of oiajudge/pkg/cmsbridge/submission.go.
use oiaj.Base.{Bool, true, false, Option, none, some, List, [], ◌∷◌, map, select, if◌then◌else◌}
use mathlib.Core.Option
use oiaj.Base.Int.{ℤ, negsuc, eq_ℤ}
use oiaj.Text.Bytes.{Bytes, codes, bytes_eq}
use oiaj.Bridge.{
  ObjectId, Submission, SubmissionResult, SubmissionStatus, compiling, compilation_failed,
  evaluating, scoring, scored,
}
use oiaj.Store.Errors.{ok}
use oiaj.Store.Action.{◌>>=◌, pure, recover}
use oiaj.Store.Session.{query_row}
use oiaj.Cms.Tables.{CmsSubmission, Participation, ResultRow, Dataset, CmsDb, CmsTx}
use oiaj.Cms.Platform.{Platform}
use oiaj.Cms.Objects.{join_all}
use oiaj.Cms.Scoring.{or_empty, empty_result, fill_testcase_results, fill_result}

-- The instant of a `time.Time` that nobody set: the start of year 1.
abbrev pub zero_time : ℤ
zero_time = negsuc 62135596799999999999

-- The first row of a result.
abbrev pub head : {A : Type 0} → List A → Option A
head [] = none
head (x ∷ xs) = some x

-- The columns of the first SELECT. `score` is read and not used.
pub record Header : Type 0 where
  pub task_id : ObjectId
  pub user_id : ObjectId
  pub timestamp : ℤ
  pub compilation_outcome : Option Bytes
  pub compilation_stderr : Option Bytes
  pub evaluation_outcome : Option Bytes
  pub score_details : Option Bytes

pub record ScoreType : Type 0 where
  pub score_type : Bytes
  pub score_type_parameters : Bytes

is_of : ObjectId → Option ObjectId → Bool
is_of id none = false
is_of id (some i) = eq_ℤ i id

module _ {F : Type 0} where
  -- A submission with its participation and a row of results.
  header_with : CmsSubmission → Participation → ResultRow F → Header
  header_with s p r = record {
    task_id = s.task_id;
    user_id = p.user_id;
    timestamp = s.timestamp;
    compilation_outcome = r.compilation_outcome;
    compilation_stderr = r.compilation_stderr;
    evaluation_outcome = r.evaluation_outcome;
    score_details = r.score_details;
  }

  -- A LEFT JOIN has a row of NULLs where there is no result.
  left_join : CmsSubmission → Participation → List (ResultRow F) → List Header
  unfolding header_with
  left_join s p [] =
      record {
        task_id = s.task_id;
        user_id = p.user_id;
        timestamp = s.timestamp;
        compilation_outcome = none;
        compilation_stderr = none;
        evaluation_outcome = none;
        score_details = none;
      }
      ∷ []
  left_join s p (r ∷ rs) = map (header_with s p) (r ∷ rs)

  unfoldable pub headers : ObjectId → CmsDb F → List Header
  unfolding left_join is_of
  headers sid d =
      join_all
        (λ s.
          join_all (λ p. left_join s p (select (λ r. eq_ℤ r.submission_id s.id) d.results))
            (select (λ p. is_of p.id s.participation_id) d.participations))
        (select (λ s. eq_ℤ s.id sid) d.submissions)

  unfoldable pub select_header : ObjectId → CmsTx F Header
  unfolding headers
  select_header sid =
      query_row
        "SELECT task_id, user_id, timestamp, compilation_outcome, compilation_stderr, evaluation_outcome, score, score_details FROM submissions INNER JOIN participations ON participations.id = submissions.participation_id LEFT JOIN submission_results ON submission_results.submission_id = submissions.id WHERE submissions.id = $1"
        λ d s. (ok (head (headers sid d)), d, s)

  -- The datasets of a task, as often as the task's id stands in its table.
  unfoldable pub datasets_of : ObjectId → CmsDb F → List Dataset
  datasets_of tid d =
      join_all (λ t. select (λ v. eq_ℤ t.id v.task_id) d.datasets)
        (select (λ t. eq_ℤ t.id tid) d.tasks)

  unfoldable pub select_score_type : ObjectId → CmsTx F ScoreType
  unfolding datasets_of
  select_score_type tid =
      query_row
        "SELECT score_type, score_type_parameters FROM tasks INNER JOIN datasets ON tasks.id = datasets.task_id WHERE tasks.id = $1"
        λ d s. (
          ok (
              Option.map
                (λ v. record {
                  score_type = v.score_type;
                  score_type_parameters = v.score_type_parameters;
                })
                (head (datasets_of tid d))),
          d,
          s,
        )

  -- A submission of which the first SELECT tells the state.
  unfoldable pub submission_with :
      ObjectId → Header → SubmissionStatus → Bytes → Option (SubmissionResult F) → Submission F
  submission_with sid h status message result = record {
    id = sid;
    user_id = h.user_id;
    problem_id = h.task_id;
    submission_status = status;
    timestamp = h.timestamp;
    compilation_message = message;
    result = result;
    deleted = false;
  }

-- What the columns say of the progress of a submission.
unscored : Option Bytes → Bool
unscored none = true
unscored (some details) = bytes_eq details (codes "null")

after_evaluation : Option Bytes → Option Bytes → SubmissionStatus
unfolding unscored
after_evaluation none details = evaluating
after_evaluation (some evaluation) details = if unscored details then scoring else scored

after_compilation : Bytes → Option Bytes → Option Bytes → SubmissionStatus
unfolding after_evaluation
after_compilation outcome evaluation details =
    if bytes_eq outcome (codes "fail")
    then compilation_failed
    else after_evaluation evaluation details

status_from : Option Bytes → Option Bytes → Option Bytes → SubmissionStatus
unfolding after_compilation
status_from none evaluation details = compiling
status_from (some outcome) evaluation details = after_compilation outcome evaluation details

unfoldable pub status_of : Header → SubmissionStatus
unfolding status_from
status_of h = status_from h.compilation_outcome h.evaluation_outcome h.score_details

module _ {F : Type 0} (go : Platform F) where
  -- The fields of the result are filled one after the other; errors of the fills are dropped.
  unfoldable pub score_submission : ObjectId → Header → ScoreType → CmsTx F (Submission F)
  unfolding fill_testcase_results fill_result or_empty empty_result
  score_submission sid h t = do
    testcases ← recover (fill_testcase_results go sid) (λ e. pure [])
    pure (
        submission_with sid h scored (or_empty h.compilation_stderr) (
          some (
            fill_result go t.score_type (or_empty h.score_details) t.score_type_parameters
              (record (empty_result go.num) { testcases = testcases }))))

  -- The early returns, by the status.
  unfoldable pub describe :
      ObjectId → Header → ScoreType → SubmissionStatus → CmsTx F (Submission F)
  unfolding score_submission submission_with
  describe sid h t scored = score_submission sid h t
  describe sid h t compiling = pure (submission_with sid h compiling [] none)
  describe sid h t status = pure (submission_with sid h status (or_empty h.compilation_stderr) none)

  unfoldable pub read_submission : ObjectId → Header → CmsTx F (Submission F)
  unfolding select_score_type describe status_of
  read_submission sid h = do t ← select_score_type h.task_id; describe sid h t (status_of h)

  -- `GetSubmission`. Where there is no row, the error of the Scan stands in the named result and is
  -- returned, as any other error; the submission with `Deleted` set that comes along with it is read
  -- by no caller.
  unfoldable pub get_submission : ObjectId → CmsTx F (Submission F)
  unfolding select_header read_submission
  get_submission sid = do h ← select_header sid; read_submission sid h
