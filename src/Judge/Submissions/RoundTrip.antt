-- ===== src/Judge/Submissions/RoundTrip.antt =====
-- What `GetSubmission` returns after `CreateSubmission`.

use oiaj.Base.{
  ℕ, ◌≡◌, refl, ap, sym, All, map, ◌∙◌, inl, inr, Bool, true, false, Option, none, some, List, [],
  ◌∷◌, ◌++◌, arith, any, all, first, reject, update, first-update, first-append_none, Bool-cases,
}
use oiaj.Base.Int.{eq_ℤ_refl}
use mathlib.Core.Option
use oiaj.Text.Bytes.{Bytes}
use oiaj.Bridge.{ObjectId, Arith, TestcaseResult, SubtaskResult, SubmissionResult, Submission}
use oiaj.Store.Errors.{no_rows, custom, ok, err}
use oiaj.Store.Session.Laws.{IsUp, query_row-some, query_row-none}
use oiaj.Store.Session.Inverse.{exec-inv}
use oiaj.Judge.Tables.{Details, SubmissionRow, Db, JudgeWorld}
use oiaj.Judge.Submissions.{
  written_testcase, written_subtask, written_result, details_of, submission_of, finite_result,
  subtask_scores, is_submission, delete_submission, replace_details, upsert_submission,
  write_submission, drop_submission, create_submission, get_submission,
}

map-fixed :
    {A : Type 0} (f : A → A) (P : A → Type 0) (xs : List A)
    → ((x : A) → P x → f x ≡ x)
    → All P xs
    → map f xs ≡ xs
map-fixed f P [] fixed h = refl
map-fixed f P (x ∷ xs) fixed (p, h) =
    ap (λ y. y ∷ map f xs) (fixed x p) ∙ ap (λ ys. x ∷ ys) (map-fixed f P xs fixed h)

module _ {F : Type 0} where
  -- Strings that come back from JSON as they are, as those in UTF-8 do.
  abbrev pub IsText : Arith F → Bytes → Type 0
  IsText num t = num.text_of t ≡ t

  -- The strings of a result are such strings.
  unfoldable pub HasTexts : Arith F → Option (SubmissionResult F) → Type 0
  HasTexts num none = Unit
  HasTexts num (some r) =
      All (λ s. All (IsText num) s.testcases) r.subtasks
      × All (λ t. IsText num t.testcase × IsText num t.message) r.testcases

  written_testcase-fixed :
      (num : Arith F) (t : TestcaseResult F)
      → IsText num t.testcase × IsText num t.message
      → written_testcase num t ≡ t
  unfolding written_testcase
  written_testcase-fixed num t (name, message) =
      ap (λ x. record t { testcase = x; message = num.text_of t.message }) name
      ∙ ap (λ x. record t { message = x }) message

  written_subtask-fixed :
      (num : Arith F) (s : SubtaskResult F)
      → All (IsText num) s.testcases
      → written_subtask num s ≡ s
  unfolding written_subtask
  written_subtask-fixed num s h =
      ap (λ x. record s { testcases = x })
        (map-fixed num.text_of (IsText num) s.testcases (λ x p. p) h)

  written_result-fixed :
      (num : Arith F) (o : Option (SubmissionResult F))
      → HasTexts num o
      → Option.map (written_result num) o ≡ o
  unfolding written_result HasTexts
  written_result-fixed num none h = refl
  written_result-fixed num (some r) (subtasks, testcases) =
      ap (λ x. some (record r { subtasks = x; testcases = map (written_testcase num) r.testcases }))
        (map-fixed (written_subtask num) _ r.subtasks (written_subtask-fixed num) subtasks)
      ∙ ap (λ x. some (record r { testcases = x }))
          (map-fixed (written_testcase num) _ r.testcases (written_testcase-fixed num) testcases)

  -- Reading a document back forgets that the submission may be deleted; strings that JSON keeps are
  -- kept.
  submission_of-details_of :
      (num : Arith F) (s : Submission F)
      → IsText num s.compilation_message
      → HasTexts num s.result
      → s.deleted ≡ false
      → submission_of (details_of num s) ≡ s
  unfolding submission_of details_of
  submission_of-details_of num s message texts kept =
      ap
        (λ x. record s {
          deleted = false;
          compilation_message = x;
          result = Option.map (written_result num) s.result;
        })
        message
      ∙ ap (λ x. record s { deleted = false; result = x }) (written_result-fixed num s.result texts)
      ∙ ap (λ x. record s { deleted = x }) (sym kept)

  -- The row that an upsert leaves under the id.
  stored_row : SubmissionRow F → Option (SubmissionRow F) → SubmissionRow F
  unfolding replace_details
  stored_row new none = new
  stored_row new (some old) = replace_details new old

  first_of_any :
      (p : SubmissionRow F → Bool) (xs : List (SubmissionRow F))
      → any p xs ≡ true
      → (x : SubmissionRow F) × (first p xs ≡ some x)
  first_of_any p [] h = absurd (ground arith)
  first_of_any p (x ∷ xs) h = elim (Bool-cases (p x)) [
    | inl hit ↦ (x, rw hit)
    | inr miss ↦ rw miss (first_of_any p xs (rw miss at h))
  ]

  upsert_submission-first :
      (new : SubmissionRow F) (d d' : Db F) (s s' : ℕ)
      → upsert_submission new d s ≡ (ok tt, d', s')
      → (row : SubmissionRow F) × (first (is_submission new.id) d'.submissions ≡ some row)
        × (row.details ≡ new.details)
  unfolding upsert_submission
  upsert_submission-first new d d' s s' h =
      elim (Bool-cases (any (is_submission new.id) d.submissions)) [
        | inl there ↦
            let (old, e) = first_of_any (is_submission new.id) d.submissions there in
            let after : d'.submissions
                ≡ update (is_submission new.id) (replace_details new) d.submissions =
              ground arith in
            (
              replace_details new old,
              rw after (
                  first-update (is_submission new.id) (replace_details new) d.submissions old
                    (λ y. unfold replace_details in refl) e),
              unfold replace_details in refl,
            )
        | inr absent ↦
            let after : d'.submissions ≡ d.submissions ++ new ∷ [] = ground arith in
            (
              new,
              rw after (
                  first-append_none (is_submission new.id) d.submissions (new ∷ []) absent
                  ∙ ground (arith, eq_ℤ_refl new.id)),
              refl,
            )
      ]

  write_submission-inv :
      (s : Submission F) (doc : Details F) (v : List F) (w w' : JudgeWorld F)
      → write_submission s doc v w ≡ (ok tt, w')
      → (row : SubmissionRow F) × (first (is_submission s.id) w'.db.submissions ≡ some row)
        × (row.details ≡ doc)
  unfolding write_submission
  write_submission-inv s doc v w w' h =
      let (d, n, e, same, live) = exec-inv w w' _ (upsert_submission _) h in
      let (row, found, value) = upsert_submission-first _ w.db d w.sequences n e in
      (row, rw (ap (λ x. x.db) same) found, value)

  drop_submission-inv :
      (sid : ObjectId) (w w' : JudgeWorld F)
      → drop_submission sid w ≡ (ok tt, w')
      → w'.db.submissions ≡ reject (is_submission sid) w.db.submissions
  unfolding drop_submission
  drop_submission-inv sid w w' h =
      let (d, n, e, same, live) = exec-inv w w' _ (delete_submission sid) h in
      ap (λ x. x.db.submissions) same ∙ ground arith

  -- A submission that was stored went through both encodings.
  create_submission-inv :
      (num : Arith F) (s : Submission F) (w w' : JudgeWorld F)
      → create_submission num s w ≡ (ok tt, w')
      → s.deleted ≡ false
      → write_submission s (details_of num s) (subtask_scores s.result) w ≡ (ok tt, w')
  unfolding create_submission
  create_submission-inv num s w w' h kept = elim (Bool-cases (num.has_year s.timestamp)) [
    | inl dated ↦ elim (Bool-cases (finite_result num s.result)) [
      | inl finite ↦ elim (Bool-cases (all num.is_finite (subtask_scores s.result))) [
        | inl finite_scores ↦ ground arith
        | inr infinite ↦ absurd (ground arith)
      ]
      | inr infinite ↦ absurd (ground arith)
    ]
    | inr undated ↦ absurd (ground arith)
  ]

  get_submission-found :
      (sid : ObjectId) (row : SubmissionRow F) (w : JudgeWorld F)
      → IsUp w
      → first (is_submission sid) w.db.submissions ≡ some row
      → get_submission sid w ≡ (ok (submission_of row.details), w)
  unfolding get_submission
  get_submission-found sid row w up found =
      query_row-some w up _ _ (submission_of row.details) w.db w.sequences (rw found)

  -- A submission that is not marked as deleted, whose strings JSON keeps, and that was stored without
  -- an error is the one that is read by its id in the state that this left, where PostgreSQL answers.
  pub create_submission-get_submission :
      (num : Arith F) (s : Submission F) (w w' : JudgeWorld F)
      → create_submission num s w ≡ (ok tt, w')
      → s.deleted ≡ false
      → IsText num s.compilation_message
      → HasTexts num s.result
      → IsUp w'
      → get_submission s.id w' ≡ (ok s, w')
  create_submission-get_submission num s w w' h kept message texts up =
      let (row, found, value) =
        write_submission-inv s (details_of num s) (subtask_scores s.result) w w'
          (create_submission-inv num s w w' h kept) in
      get_submission-found s.id row w' up found
      ∙ ap (λ x. (ok x, w'))
          (ap submission_of value ∙ submission_of-details_of num s message texts kept)

  first-reject :
      (p : SubmissionRow F → Bool) (xs : List (SubmissionRow F)) → first p (reject p xs) ≡ none
  first-reject p [] = refl
  first-reject p (x ∷ xs) = ground (arith, first-reject p xs)

  -- After a submission marked as deleted was stored without an error, its id is not found, where
  -- PostgreSQL answers.
  pub create_submission-deleted :
      (num : Arith F) (s : Submission F) (w w' : JudgeWorld F)
      → create_submission num s w ≡ (ok tt, w')
      → s.deleted ≡ true
      → IsUp w'
      → get_submission s.id w'
        ≡ (err (custom "SELECT details FROM oia_submissions WHERE id=$1" no_rows), w')
  unfolding create_submission get_submission
  create_submission-deleted num s w w' h gone up =
      let after = drop_submission-inv s.id w w' (rw gone at h) in
      query_row-none w' up _ _ w'.db w'.sequences
        (rw after (rw (first-reject (is_submission s.id) w.db.submissions)))
