-- ===== src/Judge/Updater/Balance.antt =====
-- The score of a user is the sum of the scores of the user at the tasks, as long as the arithmetic
-- is exact.
use oiaj.Base.{
  ◌≡◌, refl, sym, ap, ◌∙◌, inl, inr, Bool, true, false, some, List, [], ◌∷◌, ◌++◌, arith,
  if◌then◌else◌, All, any, first, update, Bool-cases,
}
use mathlib.Core.Option.{some-injective}
use mathlib.Core.Path.{ap₂}
use oiaj.Base.Int.{ℤ, eq_ℤ, eq_ℤ_iff, eq_ℤ_refl}
use oiaj.Bridge.{ObjectId, Arith}
use oiaj.Judge.Tables.{UserRow, TaskScoreRow, Db}
use oiaj.Judge.Users.{is_user}
use oiaj.Judge.Scores.{is_result, put_score, replace_scores, add_score}
use oiaj.Judge.Updater.Recalculate.{rescored, previous_of, score_or}
use oiaj.Judge.Updater.Keys.{IsKeyed, is_result-parts, update_none, first-none, put_score-IsKeyed}

eq_ℤ-false : (a b : ℤ) → eq_ℤ a b ≡ false → eq_ℤ b a ≡ false
eq_ℤ-false a b h = ground (arith, eq_ℤ_iff a b, eq_ℤ_iff b a)

-- The values that occur are added and subtracted without rounding, and fit a REAL column.
pub record IsExact {F : Type 0} (num : Arith F) : Type 0 where
  pub comm : (a b : F) → num.add a b ≡ num.add b a
  pub assoc : (a b c : F) → num.add (num.add a b) c ≡ num.add a (num.add b c)
  pub add_zero : (a : F) → num.add a num.zero ≡ a
  pub sub_add : (a b : F) → num.add (num.sub a b) b ≡ a
  pub fits : (a : F) → num.to_real a ≡ a

first_of_any :
    {A : Type 0} (p : A → Bool) (xs : List A) → any p xs ≡ true → (x : A) × (first p xs ≡ some x)
first_of_any p [] h = absurd (ground arith)
first_of_any p (x ∷ xs) h = elim (Bool-cases (p x)) [
  | inl hit ↦ (x, rw hit)
  | inr miss ↦ rw miss (first_of_any p xs (rw miss at h))
]

module _ {F : Type 0} where
  -- The sum of the task scores of a user.
  unfoldable pub total_of : Arith F → ObjectId → List (TaskScoreRow F) → F
  total_of num uid [] = num.zero
  total_of num uid (r ∷ rows) =
      let rest = total_of num uid rows in if eq_ℤ r.user_id uid then num.add r.score rest else rest

  pub record IsBalanced (num : Arith F) (d : Db F) : Type 0 where
    pub sums : All (λ u. u.score ≡ total_of num u.id d.task_scores) d.users
    pub keyed : IsKeyed d.task_scores

module _ {F : Type 0} (num : Arith F) (law : IsExact num) where
  -- Replacing a term of a sum.
  replace_term :
      (old new rest : F) → num.add new rest ≡ num.add (num.add old rest) (num.sub new old)
  replace_term old new rest = cc (
    law.sub_add new old,
    law.comm old rest,
    law.comm new rest,
    law.assoc rest old (num.sub new old),
    law.comm old (num.sub new old),
  )

  total_of-append :
      (uid : ObjectId) (new : TaskScoreRow F) (rows : List (TaskScoreRow F))
      → total_of num uid (rows ++ new ∷ []) ≡ (
          if eq_ℤ new.user_id uid
          then num.add (total_of num uid rows) new.score
          else total_of num uid rows)
  unfolding total_of
  total_of-append uid new [] = ground (arith, law.comm new.score num.zero)
  total_of-append uid new (r ∷ rows) =
      ground
        (arith, total_of-append uid new rows, law.assoc r.score (total_of num uid rows) new.score)

  total_of-update :
      (uid tid : ObjectId) (new old : TaskScoreRow F) (rows : List (TaskScoreRow F))
      → IsKeyed rows
      → first (is_result uid tid) rows ≡ some old
      → total_of num uid (update (is_result uid tid) (replace_scores new) rows)
        ≡ num.add (total_of num uid rows) (num.sub new.score old.score)
  unfolding total_of replace_scores
  total_of-update uid tid new old [] k h = absurd (ground arith)
  total_of-update uid tid new old (r ∷ rows) k h = elim (Bool-cases (is_result uid tid r)) [
    | inl hit ↦
        let (u, t) = is_result-parts uid tid r hit in
        let clear : any (is_result uid tid) rows ≡ false = rw (← u, ← t) k.0 in
        let same : r ≡ old = some-injective r old (rw hit at h) in
        rw (hit, update_none uid tid new rows clear, (eq_ℤ_iff r.user_id uid).1 u, ← same)
          (replace_term r.score new.score (total_of num uid rows))
    | inr miss ↦ rw miss (
        ground (
          arith,
          total_of-update uid tid new old rows k.1 (rw miss at h),
          law.assoc r.score (total_of num uid rows) (num.sub new.score old.score),
        ))
  ]

  -- The rows of another user do not count.
  total_of-update_other :
      (v uid tid : ObjectId) (new : TaskScoreRow F) (rows : List (TaskScoreRow F))
      → eq_ℤ uid v ≡ false
      → total_of num v (update (is_result uid tid) (replace_scores new) rows) ≡ total_of num v rows
  unfolding total_of replace_scores
  total_of-update_other v uid tid new [] other = refl
  total_of-update_other v uid tid new (r ∷ rows) other = elim (Bool-cases (is_result uid tid r)) [
    | inl hit ↦
        let (u, t) = is_result-parts uid tid r hit in
        rw (hit, u, other) (total_of-update_other v uid tid new rows other)
    | inr miss ↦ rw (miss, total_of-update_other v uid tid new rows other)
  ]

  sub_zero : (a : F) → num.sub a num.zero ≡ a
  sub_zero a = sym (law.add_zero (num.sub a num.zero)) ∙ law.sub_add a num.zero

  total_of-put_score :
      (new : TaskScoreRow F) (rows : List (TaskScoreRow F))
      → IsKeyed rows
      → total_of num new.user_id (put_score new rows)
        ≡ num.add
            (total_of num new.user_id rows)
            (num.sub new.score (score_or num.zero (first (is_result new.user_id new.task_id) rows)))
  unfolding put_score score_or
  total_of-put_score new rows k = elim (Bool-cases (any (is_result new.user_id new.task_id) rows)) [
    | inl there ↦
        let (old, e) = first_of_any (is_result new.user_id new.task_id) rows there in
        rw (there, e, score_or) (total_of-update new.user_id new.task_id new old rows k e)
    | inr absent ↦
        rw
          (
            absent,
            first-none new.user_id new.task_id rows absent,
            score_or,
            total_of-append new.user_id new rows,
            eq_ℤ_refl new.user_id,
          )
          (ap (num.add (total_of num new.user_id rows)) (sym (sub_zero new.score)))
  ]

  total_of-put_score_other :
      (v : ObjectId) (new : TaskScoreRow F) (rows : List (TaskScoreRow F))
      → eq_ℤ new.user_id v ≡ false
      → total_of num v (put_score new rows) ≡ total_of num v rows
  unfolding put_score
  total_of-put_score_other v new rows other =
      elim (Bool-cases (any (is_result new.user_id new.task_id) rows)) [
        | inl there ↦ rw there (total_of-update_other v new.user_id new.task_id new rows other)
        | inr absent ↦ rw (absent, total_of-append v new rows, other)
      ]

  -- A user who is given the gain is balanced again; the others are not touched.
  user_balanced :
      (new : TaskScoreRow F) (rows : List (TaskScoreRow F)) (delta : F) (u : UserRow F)
      → IsKeyed rows
      → delta
        ≡ num.sub new.score (score_or num.zero (first (is_result new.user_id new.task_id) rows))
      → u.score ≡ total_of num u.id rows
      → let v = if is_user new.user_id u then add_score num delta u else u in
        v.score ≡ total_of num v.id (put_score new rows)
  unfolding add_score
  user_balanced new rows delta u k e h = elim (Bool-cases (eq_ℤ u.id new.user_id)) [
    | inl mine ↦
        let same = (eq_ℤ_iff u.id new.user_id).0 mine in
        rw (mine, law.fits delta, law.fits (num.add u.score delta), same)
          (ap₂ num.add (h ∙ ap (λ i. total_of num i rows) same) e
            ∙ sym (total_of-put_score new rows k))
    | inr other ↦
        rw other
          (h ∙ sym (total_of-put_score_other u.id new rows (eq_ℤ-false u.id new.user_id other)))
  ]

  users_balanced :
      (new : TaskScoreRow F) (rows : List (TaskScoreRow F)) (delta : F) (users : List (UserRow F))
      → IsKeyed rows
      → delta
        ≡ num.sub new.score (score_or num.zero (first (is_result new.user_id new.task_id) rows))
      → All (λ u. u.score ≡ total_of num u.id rows) users
      → All
          (λ u. u.score ≡ total_of num u.id (put_score new rows))
          (update (is_user new.user_id) (add_score num delta) users)
  users_balanced new rows delta [] k e h = tt
  users_balanced new rows delta (u ∷ users) k e h =
      (user_balanced new rows delta u k e h.0, users_balanced new rows delta users k e h.1)

  -- A recalculation keeps every user's score the sum of the user's task scores.
  pub rescored-IsBalanced :
      (uid tid : ObjectId) (m : F) (d : Db F)
      → IsBalanced num d
      → IsBalanced num (rescored num uid tid m d)
  unfolding rescored previous_of
  rescored-IsBalanced uid tid m d h = record {
    sums =
        users_balanced _ d.task_scores _ d.users h.keyed (ap₂ num.sub (sym (law.fits _)) refl)
          h.sums;
    keyed = put_score-IsKeyed _ d.task_scores h.keyed;
  }
