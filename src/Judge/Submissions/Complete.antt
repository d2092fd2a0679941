-- ===== src/Judge/Submissions/Complete.antt =====
-- `CreateSubmission` of oiajudge/pkg/oiajudge/store.go when PostgreSQL answers.
use oiaj.Base.{
  ◌≡◌, refl, ◌∙◌, inl, inr, Bool, true, false, ◌||◌, ◌&&◌, Option, none, some, List, [], ◌∷◌, ◌++◌,
  map, arith, any, all, reject, update, if◌then◌else◌, Bool-cases,
}
use oiaj.Bridge.{Arith, SubtaskResult, SubmissionResult, Submission}
use oiaj.Store.Errors.{ok}
use oiaj.Store.Session.Laws.{IsUp, exec-ok}
use oiaj.Judge.Tables.{SubmissionRow, JudgeWorld, has_user}
use oiaj.Judge.Submissions.{
  details_of, subtask_scores, finite_score, finite_result, marshal_submission, marshal_scores,
  is_submission, replace_details, delete_submission, upsert_submission, write_submission,
  drop_submission, create_submission,
}

module _ {F : Type 0} where
  -- The row of a submission.
  entry_of : Arith F → Submission F → SubmissionRow F
  entry_of num s = record {
    id = s.id;
    user_id = s.user_id;
    task_id = s.problem_id;
    details = details_of num s;
    subtask_details = subtask_scores s.result;
  }

  -- The table after a submission has arrived: a deleted one leaves, a known one is replaced.
  pub arrived : Arith F → Submission F → List (SubmissionRow F) → List (SubmissionRow F)
  unfolding entry_of
  arrived num s rows =
      if s.deleted
      then reject (is_submission s.id) rows
      else if any (is_submission s.id) rows
      then update (is_submission s.id) (replace_details (entry_of num s)) rows
      else rows ++ entry_of num s ∷ []

  -- The instant has a year and the result has numbers that JSON has, or the submission is only deleted.
  unfoldable pub storable : Arith F → Submission F → Bool
  unfolding finite_result
  storable num s = s.deleted || (num.has_year s.timestamp && finite_result num s.result)

  finite_subtasks :
      (num : Arith F) (rs : List (SubtaskResult F))
      → all (λ s. finite_score num s.score) rs ≡ true
      → all num.is_finite (map (λ s. s.score.score) rs) ≡ true
  unfolding finite_score
  finite_subtasks num [] h = refl
  finite_subtasks num (r ∷ rs) h = ground (arith, finite_subtasks num rs)

  -- What the first encoding accepts, the second accepts too.
  finite_scores :
      (num : Arith F) (o : Option (SubmissionResult F))
      → finite_result num o ≡ true
      → all num.is_finite (subtask_scores o) ≡ true
  unfolding finite_result subtask_scores
  finite_scores num none h = refl
  finite_scores num (some r) h = finite_subtasks num r.subtasks (ground arith)

  write_submission-ok :
      (num : Arith F) (s : Submission F) (w : JudgeWorld F)
      → IsUp w
      → has_user s.user_id w.db ≡ true
      → s.deleted ≡ false
      → write_submission s (details_of num s) (subtask_scores s.result) w
        ≡ (ok tt, record w { db = record w.db { submissions = arrived num s w.db.submissions } })
  unfolding write_submission upsert_submission arrived
  write_submission-ok num s w up known kept =
      exec-ok w up _ _ _ w.sequences (ground (arith, known, kept))

  drop_submission-ok :
      (num : Arith F) (s : Submission F) (w : JudgeWorld F)
      → IsUp w
      → s.deleted ≡ true
      → drop_submission s.id w
        ≡ (ok tt, record w { db = record w.db { submissions = arrived num s w.db.submissions } })
  unfolding drop_submission delete_submission arrived
  drop_submission-ok num s w up gone = exec-ok w up _ _ _ w.sequences (ground (arith, gone))

  marshal_submission-ok :
      (num : Arith F) (s : Submission F)
      → num.has_year s.timestamp ≡ true
      → finite_result num s.result ≡ true
      → marshal_submission num s ≡ ok (details_of num s)
  unfolding marshal_submission
  marshal_submission-ok num s dated h = ground (arith, dated, h)

  marshal_scores-ok :
      (num : Arith F) (v : List F) → all num.is_finite v ≡ true → marshal_scores num v ≡ ok v
  unfolding marshal_scores
  marshal_scores-ok num v h = ground (arith, h)

  -- Where PostgreSQL answers, the user is known and JSON has the instant's year and the numbers, a
  -- submission that arrives is stored, replaced or removed.
  pub create_submission-ok :
      (num : Arith F) (s : Submission F) (w : JudgeWorld F)
      → IsUp w
      → has_user s.user_id w.db ≡ true
      → storable num s ≡ true
      → create_submission num s w
        ≡ (ok tt, record w { db = record w.db { submissions = arrived num s w.db.submissions } })
  unfolding create_submission storable
  create_submission-ok num s w up known fits = elim (Bool-cases s.deleted) [
    | inl gone ↦
        let reduced : create_submission num s w ≡ drop_submission s.id w = ground (arith, gone) in
        reduced ∙ drop_submission-ok num s w up gone
    | inr kept ↦
        let dated : num.has_year s.timestamp ≡ true = ground arith in
        let finite : finite_result num s.result ≡ true = ground arith in
        let encoded = marshal_submission-ok num s dated finite in
        let scores =
          marshal_scores-ok num (subtask_scores s.result) (finite_scores num s.result finite) in
        let reduced : create_submission num s w
            ≡ write_submission s (details_of num s) (subtask_scores s.result) w =
          ground (arith, kept, encoded, scores) in
        reduced ∙ write_submission-ok num s w up known kept
  ]
