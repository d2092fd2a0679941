-- ===== src/Judge/Updater/Keys.antt =====
-- The primary key of `oia_task_score`, which the statements of
-- oiajudge/pkg/oiajudge/store.go keep.
use oiaj.Base.{
  ◌≡◌, refl, inl, inr, true, false, ◌||◌, none, List, [], ◌∷◌, ◌++◌, arith, any, first, update,
  Bool-cases,
}
use oiaj.Base.Int.{eq_ℤ_iff}
use oiaj.Bridge.{ObjectId}
use oiaj.Judge.Tables.{TaskScoreRow}
use oiaj.Judge.Scores.{is_result, put_score, replace_scores}

module _ {F : Type 0} where
  -- No two rows have the same user and task.
  abbrev pub IsKeyed : List (TaskScoreRow F) → Type 0
  IsKeyed [] = Unit
  IsKeyed (r ∷ rows) = (any (is_result r.user_id r.task_id) rows ≡ false) × IsKeyed rows

  pub is_result-parts :
      (uid tid : ObjectId) (r : TaskScoreRow F)
      → is_result uid tid r ≡ true
      → (r.user_id ≡ uid) × (r.task_id ≡ tid)
  is_result-parts uid tid r h = ground (arith, eq_ℤ_iff r.user_id uid, eq_ℤ_iff r.task_id tid)

  pub update_none :
      (uid tid : ObjectId) (new : TaskScoreRow F) (rows : List (TaskScoreRow F))
      → any (is_result uid tid) rows ≡ false
      → update (is_result uid tid) (replace_scores new) rows ≡ rows
  update_none uid tid new [] h = refl
  update_none uid tid new (r ∷ rows) h = ground (arith, update_none uid tid new rows)

  pub first-none :
      (uid tid : ObjectId) (rows : List (TaskScoreRow F))
      → any (is_result uid tid) rows ≡ false
      → first (is_result uid tid) rows ≡ none
  first-none uid tid [] h = refl
  first-none uid tid (r ∷ rows) h = ground (arith, first-none uid tid rows)

  -- Keys survive an update of the scores.
  any-update :
      (u t uid tid : ObjectId) (new : TaskScoreRow F) (rows : List (TaskScoreRow F))
      → any (is_result u t) (update (is_result uid tid) (replace_scores new) rows)
        ≡ any (is_result u t) rows
  unfolding replace_scores
  any-update u t uid tid new [] = refl
  any-update u t uid tid new (r ∷ rows) = ground (arith, any-update u t uid tid new rows)

  update-IsKeyed :
      (uid tid : ObjectId) (new : TaskScoreRow F) (rows : List (TaskScoreRow F))
      → IsKeyed rows
      → IsKeyed (update (is_result uid tid) (replace_scores new) rows)
  unfolding replace_scores
  update-IsKeyed uid tid new [] h = tt
  update-IsKeyed uid tid new (r ∷ rows) h =
      ground (
        arith,
        any-update r.user_id r.task_id uid tid new rows,
        update-IsKeyed uid tid new rows h.1,
      )

  any-append_row :
      (u t : ObjectId) (new : TaskScoreRow F) (rows : List (TaskScoreRow F))
      → any (is_result u t) (rows ++ new ∷ []) ≡ (any (is_result u t) rows || is_result u t new)
  any-append_row u t new [] = ground arith
  any-append_row u t new (r ∷ rows) = ground (arith, any-append_row u t new rows)

  apart :
      (r new : TaskScoreRow F)
      → is_result new.user_id new.task_id r ≡ false
      → is_result r.user_id r.task_id new ≡ false
  apart r new h = ground (
    arith,
    eq_ℤ_iff r.user_id new.user_id,
    eq_ℤ_iff new.user_id r.user_id,
    eq_ℤ_iff r.task_id new.task_id,
    eq_ℤ_iff new.task_id r.task_id,
  )

  append-IsKeyed :
      (new : TaskScoreRow F) (rows : List (TaskScoreRow F))
      → any (is_result new.user_id new.task_id) rows ≡ false
      → IsKeyed rows
      → IsKeyed (rows ++ new ∷ [])
  append-IsKeyed new [] h k = (refl, tt)
  append-IsKeyed new (r ∷ rows) h k =
      ground
        (arith, any-append_row r.user_id r.task_id new rows, apart r new, append-IsKeyed new rows)

  pub put_score-IsKeyed :
      (new : TaskScoreRow F) (rows : List (TaskScoreRow F))
      → IsKeyed rows
      → IsKeyed (put_score new rows)
  unfolding put_score
  put_score-IsKeyed new rows k = elim (Bool-cases (any (is_result new.user_id new.task_id) rows)) [
    | inl there ↦ rw there (update-IsKeyed new.user_id new.task_id new rows k)
    | inr absent ↦ rw absent (append-IsKeyed new rows absent k)
  ]
