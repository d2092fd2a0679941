-- ===== src/Cms/Report.antt =====
-- What `GetSubmission` of oiajudge/pkg/cmsbridge/submission.go says of a submission: its state and
-- its points.
use oiaj.Base.{
  ℕ, ◌+◌, ◌≡◌, refl, ap, ◌∙◌, Bool, true, false, Option, none, some, List, [], ◌∷◌, ◌++◌,
  Bool-cases, inl, inr, arith,
}
use mathlib.Core.Path.{subst}
use oiaj.Text.Bytes.{Bytes, codes, bytes_eq}
use oiaj.Bridge.{
  ObjectId, Arith, Score, Submission, SubmissionResult, SubtaskResult, TestcaseResult,
  SubmissionStatus, unset, compiling, compilation_failed, evaluating, scoring, scored,
}
use oiaj.Store.Errors.{ok}
use oiaj.Store.Action.{Action, ◌>>=◌, >>=-inv, pure, recover}
use oiaj.Cms.Tables.{CmsTx, CmsWorld}
use oiaj.Cms.Platform.{Platform, Group}
use oiaj.Cms.Scoring.{
  or_empty, empty_result, sum_from, with_multiplier, fill_sum, grouped_from, fill_grouped,
  fill_result, fill_testcase_results,
}
use oiaj.Cms.Submissions.{
  Header, ScoreType, select_score_type, select_header, submission_with, score_submission, describe,
  read_submission, status_of, get_submission,
}

is_scored : SubmissionStatus → Bool
is_scored scored = true
is_scored status = false

has_value : {A : Type 0} → Option A → Bool
has_value none = false
has_value (some a) = true

module _ {F : Type 0} (num : Arith F) where
  -- One number of each subtask, added in their order.
  added : (Score F → F) → F → List (SubtaskResult F) → F
  added number acc [] = acc
  added number acc (s ∷ subtasks) = added number (num.add acc (number s.score)) subtasks

  -- The points of a result are those of its subtasks.
  record IsTotal (r : SubmissionResult F) : Type 0 where
    score : added (λ s. s.score) num.zero r.subtasks ≡ r.score.score
    max_score : added (λ s. s.max_score) num.zero r.subtasks ≡ r.score.max_score

  IsTotalled : Option (SubmissionResult F) → Type 0
  IsTotalled none = Unit
  IsTotalled (some r) = IsTotal r

  -- A submission that says it is scored has a result, no other one has, and a result's points are
  -- those of its subtasks.
  pub record IsReport (sid : ObjectId) (x : Submission F) : Type 0 where
    id : x.id ≡ sid
    scored : is_scored x.submission_status ≡ has_value x.result
    totalled : IsTotalled x.result

  added-snoc :
      (number : Score F → F) (acc : F) (subtasks : List (SubtaskResult F)) (s : SubtaskResult F)
      → added number acc (subtasks ++ s ∷ []) ≡ num.add (added number acc subtasks) (number s.score)
  unfolding added
  added-snoc number acc [] s = refl
  added-snoc number acc (x ∷ subtasks) s =
      added-snoc number (num.add acc (number x.score)) subtasks s

  -- One more subtask, whose points are added.
  with_subtask : SubmissionResult F → SubtaskResult F → SubmissionResult F
  with_subtask r s = record r {
    subtasks = r.subtasks ++ s ∷ [];
    score = record {
      score = num.add r.score.score s.score.score;
      max_score = num.add r.score.max_score s.score.max_score;
    };
  }

  with_subtask-IsTotal :
      (r : SubmissionResult F) (s : SubtaskResult F) → IsTotal r → IsTotal (with_subtask r s)
  unfolding with_subtask
  with_subtask-IsTotal r s h = record {
    score =
        added-snoc (λ p. p.score) num.zero r.subtasks s ∙ ap (λ x. num.add x s.score.score) h.score;
    max_score =
        added-snoc (λ p. p.max_score) num.zero r.subtasks s
        ∙ ap (λ x. num.add x s.score.max_score) h.max_score;
  }

module _ {F : Type 0} (go : Platform F) where
  sum_from-IsTotal :
      (multiplier : F) (i : ℕ) (ts : List (TestcaseResult F)) (r : SubmissionResult F)
      → IsTotal go.num r
      → IsTotal go.num (sum_from go multiplier i ts r)
  unfolding sum_from with_subtask
  sum_from-IsTotal multiplier i [] r h = h
  sum_from-IsTotal multiplier i (t ∷ ts) r h =
      sum_from-IsTotal multiplier (i + 1) ts _ (with_subtask-IsTotal go.num r _ h)

  grouped_from-IsTotal :
      (gs : List (Group F)) (r : SubmissionResult F)
      → IsTotal go.num r
      → IsTotal go.num (grouped_from go gs r)
  unfolding grouped_from with_subtask
  grouped_from-IsTotal [] r h = h
  grouped_from-IsTotal (g ∷ gs) r h = grouped_from-IsTotal gs _ (with_subtask-IsTotal go.num r _ h)

  cleared_lem :
      (ts : List (TestcaseResult F))
      → IsTotal go.num (record (empty_result go.num) { testcases = ts })
  unfolding added empty_result
  cleared_lem ts = record { score = refl; max_score = refl }

  fill_result-IsTotal :
      (score_type details parameters : Bytes) (ts : List (TestcaseResult F))
      → IsTotal go.num (
          fill_result go score_type details parameters
            (record (empty_result go.num) { testcases = ts }))
  unfolding fill_result fill_sum fill_grouped with_multiplier empty_result
  fill_result-IsTotal score_type details parameters ts =
      elim (Bool-cases (bytes_eq score_type (codes "Sum"))) [
        | inl sum ↦
            rw sum
              (elim (go.parse_float parameters)
                as (λ o.
                  IsTotal go.num
                    (with_multiplier go o (record (empty_result go.num) { testcases = ts }))) [
                      | none ↦ cleared_lem ts
                      | some multiplier ↦ sum_from-IsTotal multiplier 0 ts _ (cleared_lem ts)
                    ])
        | inr grouped ↦ rw grouped (grouped_from-IsTotal (go.groups details) _ (cleared_lem ts))
      ]

-- Every value that an action returns has a property.
Ensures : {W A : Type 0} → (A → Type 0) → Action W A → Type 0
Ensures {W} {A} P m = (w w' : W) (a : A) → m w ≡ (ok a, w') → P a

module _ {W A B : Type 0} (P : B → Type 0) where
  >>=-Ensures :
      (m : Action W A) (f : A → Action W B) → ((a : A) → Ensures P (f a)) → Ensures P (m >>= f)
  unfolding Ensures
  >>=-Ensures m f h w w' b ran = let (a, w1, first, next) = >>=-inv m f w ran in h a w1 w' b next

module _ (W : Type 0) {B : Type 0} (P : B → Type 0) where
  pure-Ensures : (b : B) → P b → Ensures {W = W} P (pure b)
  unfolding Ensures
  pure-Ensures b h w w' a ran = let same : b ≡ a = ground arith in subst P same h

module _ {F : Type 0} (go : Platform F) (sid : ObjectId) where
  abbrev Reports : CmsTx F (Submission F) → Type 0
  Reports m = Ensures (IsReport go.num sid) m

  without_result :
      (h : Header) (status : SubmissionStatus) (message : Bytes)
      → is_scored status ≡ false
      → Reports (pure (submission_with sid h status message none))
  unfolding submission_with has_value IsTotalled
  without_result h status message early =
      pure-Ensures (CmsWorld F) (IsReport go.num sid) (submission_with sid h status message none)
        (record { id = refl; scored = early; totalled = tt })

  describe-IsReport :
      (h : Header) (t : ScoreType) (status : SubmissionStatus)
      → Reports (describe go sid h t status)
  unfolding describe score_submission submission_with is_scored has_value IsTotalled
  describe-IsReport h t scored =
      >>=-Ensures (IsReport go.num sid) (recover (fill_testcase_results go sid) (λ e. pure [])) _
        λ ts. pure-Ensures (CmsWorld F) (IsReport go.num sid) _ (record {
          id = refl;
          scored = refl;
          totalled =
              fill_result-IsTotal go t.score_type (or_empty h.score_details) t.score_type_parameters
                ts;
        })
  describe-IsReport h t unset = without_result h unset _ refl
  describe-IsReport h t compiling = without_result h compiling _ refl
  describe-IsReport h t compilation_failed = without_result h compilation_failed _ refl
  describe-IsReport h t evaluating = without_result h evaluating _ refl
  describe-IsReport h t scoring = without_result h scoring _ refl

  read_submission-IsReport : (h : Header) → Reports (read_submission go sid h)
  unfolding read_submission
  read_submission-IsReport h =
      >>=-Ensures (IsReport go.num sid) (select_score_type h.task_id) _
        λ t. describe-IsReport h t (status_of h)

  -- Whatever state the contest system is in, a submission that `GetSubmission` returns has the id
  -- that was asked for; it has a result exactly where its state is scored, and the points of the
  -- result, and those that can be had, are the sums over its subtasks in their order.
  pub get_submission-IsReport :
      (w w' : CmsWorld F) (x : Submission F)
      → get_submission go sid w ≡ (ok x, w')
      → IsReport go.num sid x
  unfolding get_submission Ensures
  get_submission-IsReport =
      >>=-Ensures (IsReport go.num sid) (select_header sid) (read_submission go sid)
        read_submission-IsReport
