-- ===== src/Cms/Scoring.antt =====
-- The results of a submission: `parseOutcome` of oiajudge/pkg/cmsbridge/store.go, and
-- `FillTestcaseResults`, `FillSubmissionResultsScoreTypeSum` and
-- `FillSubmissionResultsScoreTypeGrouped` of oiajudge/pkg/cmsbridge/submission.go.
use oiaj.Base.{ℕ, ◌+◌, Bool, Option, none, some, List, [], ◌∷◌, ◌++◌, map, select, if◌then◌else◌}
use oiaj.Base.Int.{ℤ, pos, eq_ℤ}
use oiaj.Text.Bytes.{Bytes, codes, bytes_eq, bytes_ltb, join}
use oiaj.Bridge.{ObjectId, Arith, TestcaseResult, SubmissionResult}
use oiaj.Store.Errors.{ok}
use oiaj.Store.Action.{◌>>=◌, pure}
use oiaj.Store.Session.{query}
use oiaj.Cms.Tables.{Evaluation, TestcaseRow, CmsDb, CmsTx}
use oiaj.Cms.Platform.{Platform, Group}
use oiaj.Cms.Objects.{join_all}

unfoldable pub or_empty : Option Bytes → Bytes
or_empty none = []
or_empty (some s) = s

-- A result without points, as a SELECT of the results starts.
unfoldable pub empty_result : {F : Type 0} → Arith F → SubmissionResult F
empty_result num = record {
  score = record { score = num.zero; max_score = num.zero };
  subtasks = [];
  testcases = [];
}

module _ {F : Type 0} (go : Platform F) where
  -- `parseOutcome`: the outcome, or the text of its error.
  parsed : Bytes → Option F → F × Option Bytes
  parsed s none = (go.num.zero, some (codes "invalid outcome `" ++ s ++ codes "`"))
  parsed s (some x) = (x, none)

  unfoldable pub parse_outcome : Option Bytes → F × Option Bytes
  unfolding parsed
  parse_outcome none = (go.num.zero, some (codes "outcome doesn't exist"))
  parse_outcome (some s) = parsed s (go.parse_float s)

  float_or_zero : Option F → F
  float_or_zero none = go.num.zero
  float_or_zero (some x) = x

  int_or_zero : Option ℤ → ℤ
  int_or_zero none = pos 0
  int_or_zero (some i) = i

  messages_of : Option Bytes → List Bytes → List Bytes
  messages_of none messages = messages
  messages_of (some error) messages = error ∷ []

  unfoldable pub testcase_result : Evaluation F → TestcaseRow → TestcaseResult F
  unfolding parse_outcome float_or_zero int_or_zero messages_of
  testcase_result e t =
      let (outcome, error) = parse_outcome e.outcome in
      record {
        testcase = t.codename;
        score = record { score = outcome; max_score = go.num.one };
        execution_time = float_or_zero e.execution_time;
        memory_usage = int_or_zero e.execution_memory;
        message = join b'\n' (messages_of error e.messages);
      }

  abbrev pub testcase_before : TestcaseResult F → TestcaseResult F → Bool
  testcase_before a b = bytes_ltb a.testcase b.testcase

  -- The evaluations of a submission with their testcases.
  unfoldable pub evaluated : ObjectId → CmsDb F → List (TestcaseResult F)
  unfolding testcase_result
  evaluated sid d =
      join_all (λ e. map (testcase_result e) (select (λ t. eq_ℤ e.testcase_id t.id) d.testcases))
        (select (λ e. eq_ℤ e.submission_id sid) d.evaluations)

  -- `FillTestcaseResults`: the testcases that it puts into the result.
  unfoldable pub fill_testcase_results : ObjectId → CmsTx F (List (TestcaseResult F))
  unfolding evaluated
  fill_testcase_results sid = do
    rows ←
        query
          "SELECT outcome, codename, text, execution_time, execution_memory FROM evaluations INNER JOIN testcases ON evaluations.testcase_id = testcases.id WHERE submission_id = $1"
          λ d s. (ok (evaluated sid d), d, s)
    pure (go.sort_testcases testcase_before rows)

  -- The loop over the testcases, from the index of the first one.
  unfoldable pub sum_from :
      F → ℕ → List (TestcaseResult F) → SubmissionResult F → SubmissionResult F
  sum_from multiplier i [] r = r
  sum_from multiplier i (t ∷ ts) r =
      let score = go.num.mul t.score.score multiplier in
      let max_score = go.num.mul t.score.max_score multiplier in
      sum_from multiplier (i + 1) ts (record r {
        subtasks =
            r.subtasks
            ++ record {
              subtask = pos i;
              score = record { score = score; max_score = max_score };
              testcases = t.testcase ∷ [];
            }
              ∷ [];
        score = record {
          score = go.num.add r.score.score score;
          max_score = go.num.add r.score.max_score max_score;
        };
      })

  unfoldable pub with_multiplier : Option F → SubmissionResult F → SubmissionResult F
  unfolding sum_from
  with_multiplier none r = r
  with_multiplier (some multiplier) r =
      sum_from multiplier 0 r.testcases
        (record r { score = record { score = go.num.zero; max_score = go.num.zero } })

  -- `FillSubmissionResultsScoreTypeSum`, whose error its caller drops.
  unfoldable pub fill_sum : Bytes → SubmissionResult F → SubmissionResult F
  unfolding with_multiplier
  fill_sum parameters r = with_multiplier (go.parse_float parameters) r

  unfoldable pub grouped_from : List (Group F) → SubmissionResult F → SubmissionResult F
  grouped_from [] r = r
  grouped_from (g ∷ gs) r =
      let score = go.num.mul g.max_score g.score_fraction in
      grouped_from gs (record r {
        subtasks =
            r.subtasks
            ++ record {
              subtask = g.idx;
              score = record { score = score; max_score = g.max_score };
              testcases = g.testcases;
            }
              ∷ [];
        score = record {
          score = go.num.add r.score.score score;
          max_score = go.num.add r.score.max_score g.max_score;
        };
      })

  -- `FillSubmissionResultsScoreTypeGrouped`
  unfoldable pub fill_grouped : Bytes → SubmissionResult F → SubmissionResult F
  unfolding grouped_from
  fill_grouped details r =
      grouped_from (go.groups details)
        (record r { score = record { score = go.num.zero; max_score = go.num.zero } })

  -- The `switch` on the score type.
  unfoldable pub fill_result : Bytes → Bytes → Bytes → SubmissionResult F → SubmissionResult F
  unfolding fill_sum fill_grouped
  fill_result score_type details parameters r =
      if bytes_eq score_type (codes "Sum") then fill_sum parameters r else fill_grouped details r
