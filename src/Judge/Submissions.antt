-- ===== src/Judge/Submissions.antt =====
-- Submissions as the judge keeps them: `CreateSubmission`, `GetSubmissions`, `GetSubmission` and
-- `GetAllScores` of oiajudge/pkg/oiajudge/store.go.
pub mod RoundTrip
pub mod Complete
use oiaj.Base.{
  Bool, true, false, ◌&&◌, Option, none, some, List, [], ◌∷◌, ◌++◌, map, if◌then◌else◌, any, all,
  first, select, reject, update,
}
use mathlib.Core.Option
use oiaj.Base.Int.{eq_ℤ}
use oiaj.Bridge.{
  ObjectId, Arith, Score, TestcaseResult, SubtaskResult, SubmissionResult, Submission,
}
use oiaj.Store.Errors.{foreign_key_violation, json_unsupported_value, json_year, Outcome, ok, err}
use oiaj.Store.Action.{◌>>=◌, ◌>>◌, lift}
use oiaj.Store.Session.{exec, query_row, query}
use oiaj.Judge.Tables.{Details, SubmissionRow, JudgeTx, Sql, has_user}

module _ {F : Type 0} where
  -- The subtask scores of a submission, none when it has no result.
  subtask_scores : Option (SubmissionResult F) → List F
  subtask_scores none = []
  subtask_scores (some r) = map (λ s. s.score.score) r.subtasks

  -- The strings of a result as a JSON document has them.
  written_testcase : Arith F → TestcaseResult F → TestcaseResult F
  written_testcase num t = record t {
    testcase = num.text_of t.testcase;
    message = num.text_of t.message;
  }

  written_subtask : Arith F → SubtaskResult F → SubtaskResult F
  written_subtask num s = record s { testcases = map num.text_of s.testcases }

  written_result : Arith F → SubmissionResult F → SubmissionResult F
  unfolding written_testcase written_subtask
  written_result num r = record r {
    subtasks = map (written_subtask num) r.subtasks;
    testcases = map (written_testcase num) r.testcases;
  }

  -- The document that `json.Marshal` writes of a submission, by what can be read in it: the fields
  -- without `deleted`.
  unfoldable pub details_of : Arith F → Submission F → Details F
  unfolding written_result
  details_of num s = record {
    id = s.id;
    user_id = s.user_id;
    problem_id = s.problem_id;
    submission_status = s.submission_status;
    timestamp = s.timestamp;
    compilation_message = num.text_of s.compilation_message;
    result = Option.map (written_result num) s.result;
  }

  -- `json.Unmarshal` of such a document into a fresh `bridge.Submission`: every field of a document
  -- that `json.Marshal` wrote is read back.
  unfoldable pub submission_of : Details F → Submission F
  submission_of d = record {
    id = d.id;
    user_id = d.user_id;
    problem_id = d.problem_id;
    submission_status = d.submission_status;
    timestamp = d.timestamp;
    compilation_message = d.compilation_message;
    result = d.result;
    deleted = false;
  }

  -- JSON has no infinities and no NaN, and `Time.MarshalJSON` has years of four digits:
  -- `json.Marshal` fails on others.
  module _ (num : Arith F) where
    finite_score : Score F → Bool
    finite_score s = num.is_finite s.score && num.is_finite s.max_score

    finite_testcase : TestcaseResult F → Bool
    unfolding finite_score
    finite_testcase t = finite_score t.score && num.is_finite t.execution_time

    finite_result : Option (SubmissionResult F) → Bool
    unfolding finite_score finite_testcase
    finite_result none = true
    finite_result (some r) =
        finite_score r.score
        && all (λ s. finite_score s.score) r.subtasks
        && all finite_testcase r.testcases

    marshal_submission : Submission F → Outcome (Details F)
    unfolding finite_result details_of
    marshal_submission s =
        if num.has_year s.timestamp
        then if finite_result s.result then ok (details_of num s) else err json_unsupported_value
        else err json_year

    marshal_scores : List F → Outcome (List F)
    marshal_scores v = if all num.is_finite v then ok v else err json_unsupported_value

  -- The rows of one submission, and those of one user at one task.
  abbrev pub is_submission : ObjectId → SubmissionRow F → Bool
  is_submission sid r = eq_ℤ r.id sid

  abbrev pub is_attempt : ObjectId → ObjectId → SubmissionRow F → Bool
  is_attempt uid tid r = eq_ℤ r.user_id uid && eq_ℤ r.task_id tid

  delete_submission : ObjectId → Sql F Unit
  delete_submission sid d s =
      (ok tt, record d { submissions = reject (is_submission sid) d.submissions }, s)

  -- A row that is there keeps its user and its task.
  replace_details : SubmissionRow F → SubmissionRow F → SubmissionRow F
  replace_details new r = record r { details = new.details; subtask_details = new.subtask_details }

  upsert_submission : SubmissionRow F → Sql F Unit
  unfolding replace_details
  upsert_submission new d s =
      if any (is_submission new.id) d.submissions
      then (
        ok tt,
        record d {
          submissions = update (is_submission new.id) (replace_details new) d.submissions;
        },
        s,
      )
      else if has_user new.user_id d
      then (ok tt, record d { submissions = d.submissions ++ new ∷ [] }, s)
      else (err foreign_key_violation, d, s)

  write_submission : Submission F → Details F → List F → JudgeTx F Unit
  unfolding upsert_submission
  write_submission submission data_json scores_json =
      exec
        "INSERT INTO oia_submissions(id, user_id, task_id, details, subtask_details) VALUES ($4, $1, $2, $3, $5) ON CONFLICT(id) DO UPDATE SET details=EXCLUDED.details, subtask_details=EXCLUDED.subtask_details"
        (upsert_submission (record {
          id = submission.id;
          user_id = submission.user_id;
          task_id = submission.problem_id;
          details = data_json;
          subtask_details = scores_json;
        }))

  drop_submission : ObjectId → JudgeTx F Unit
  unfolding delete_submission
  drop_submission sid = exec "DELETE FROM oia_submissions WHERE id = $1" (delete_submission sid)

  -- `CreateSubmission`
  unfoldable pub create_submission : Arith F → Submission F → JudgeTx F Unit
  unfolding marshal_submission marshal_scores subtask_scores write_submission drop_submission
  create_submission num submission =
      if submission.deleted then drop_submission submission.id else do
        data_json ← lift (marshal_submission num submission)
        scores_json ← lift (marshal_scores num (subtask_scores submission.result))
        write_submission submission data_json scores_json

  -- `GetAllScores`
  unfoldable pub get_all_scores : ObjectId → ObjectId → JudgeTx F (List (List F))
  get_all_scores uid tid =
      query "SELECT subtask_details from oia_submissions WHERE user_id = $1 AND task_id = $2"
        λ d s. (ok (map (λ r. r.subtask_details) (select (is_attempt uid tid) d.submissions)), d, s)

  -- `GetSubmissions`
  unfoldable pub get_submissions : ObjectId → ObjectId → JudgeTx F (List (Submission F))
  unfolding submission_of
  get_submissions uid tid =
      query "SELECT details FROM oia_submissions WHERE user_id=$1 AND task_id=$2" λ d s.
        (ok (map (λ r. submission_of r.details) (select (is_attempt uid tid) d.submissions)), d, s)

  -- `GetSubmission`
  unfoldable pub get_submission : ObjectId → JudgeTx F (Submission F)
  unfolding submission_of
  get_submission sid = query_row "SELECT details FROM oia_submissions WHERE id=$1" λ d s. (
    ok (Option.map (λ r. submission_of r.details) (first (is_submission sid) d.submissions)),
    d,
    s,
  )
