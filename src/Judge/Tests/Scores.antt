-- ===== src/Judge/Tests/Scores.antt =====
-- Runs of the updater.
use oiaj.Base.{◌≡◌, refl, inl, inr, true, some, List, [], ◌∷◌, get_elem?}
use mathlib.Core.List.{Permᴰ}
use oiaj.Base.Int.{ℤ, pos, ◌+ℤ◌, ◌-ℤ◌, eq_ℤ}
use oiaj.Bridge.{Event, submission}
use oiaj.Store.Errors.{ok, err, panic, custom, no_rows}
use oiaj.Store.Session.{exec, query_row, query}
use oiaj.Judge.Tables.{JudgeWorld}
use oiaj.Judge.Submissions.{create_submission, get_submission}
use oiaj.Judge.Updater.{base_score, by_subtask, recalculate}
use oiaj.Judge.Updater.Best.{IsBest, by_subtask-Attained, base_score-perm}
use oiaj.Judge.Updater.Balance.{IsBalanced}
use oiaj.Judge.Updater.Unknown.{unknown_task, recalculate-panic}
use oiaj.Judge.Updater.Recalculate.{multiplier_of}
use oiaj.Judge.Submissions.RoundTrip.{
  HasTexts, create_submission-get_submission, create_submission-deleted,
}
use oiaj.Judge.Events.{handle_event}
use oiaj.Judge.Events.Balance.{handle_event-IsBalanced}
use oiaj.Judge.Tests.Data.{
  db, user, num_ℤ, num_ℤ-IsExact, num_ℤ-IsMax, attempt, world, config, server, db-IsBalanced,
}

abbrev scored_event : Event
scored_event = record { event_id = pos 1; object_id = pos 42; event_type = submission }

handle_event-IsBalanced_example :
    IsBalanced num_ℤ (handle_event config scored_event server).1.judge.db
handle_event-IsBalanced_example =
    handle_event-IsBalanced config num_ℤ-IsExact scored_event server db-IsBalanced

-- The submission is stored and the score of the user becomes 18.
abbrev stored : JudgeWorld ℤ
stored = (create_submission num_ℤ attempt world).1

abbrev recounted : JudgeWorld ℤ
recounted = (recalculate num_ℤ (pos 1) (pos 7) stored).1

recounted_score : recounted.db.users ≡ record (user) { score = pos 18 } ∷ []
unfolding create_submission recalculate ◌+ℤ◌ ◌-ℤ◌ eq_ℤ query exec query_row
recounted_score = refl

-- The third submission has a subtask more, and each subtask is best in another submission.
abbrev first_two : List (List ℤ)
first_two = (pos 5 ∷ pos 4 ∷ []) ∷ (pos 2 ∷ pos 9 ∷ []) ∷ []

abbrev third : List ℤ
third = pos 1 ∷ pos 1 ∷ pos 3 ∷ []

by_subtask-Attained_example :
    (b : ℤ) × (get_elem? (by_subtask num_ℤ [] (third ∷ first_two)) 1 ≡ some b)
    × IsBest num_ℤ (third ∷ first_two) 1 b
by_subtask-Attained_example =
    by_subtask-Attained num_ℤ num_ℤ-IsMax (third ∷ first_two) 1 (pos 9) (inr (inr (inl refl)))

base_score-perm_example :
    base_score num_ℤ (third ∷ first_two)
    ≡ base_score num_ℤ ((pos 5 ∷ pos 4 ∷ []) ∷ third ∷ (pos 2 ∷ pos 9 ∷ []) ∷ [])
base_score-perm_example =
    base_score-perm num_ℤ num_ℤ-IsMax (third ∷ first_two)
      ((pos 5 ∷ pos 4 ∷ []) ∷ third ∷ (pos 2 ∷ pos 9 ∷ []) ∷ []) (Permᴰ.swap refl refl)

attempt-HasTexts : HasTexts num_ℤ attempt.result
unfolding HasTexts
attempt-HasTexts = ((tt, (tt, tt)), tt)

create_submission-get_submission_example : get_submission (pos 42) stored ≡ (ok attempt, stored)
unfolding create_submission eq_ℤ exec
create_submission-get_submission_example =
    create_submission-get_submission num_ℤ attempt world stored refl refl refl attempt-HasTexts
      (record { answered = refl; live = refl })

-- The contest system deletes the submission that was stored.
abbrev withdrawn : JudgeWorld ℤ
withdrawn = (create_submission num_ℤ (record attempt { deleted = true }) stored).1

create_submission-deleted_example :
    get_submission (pos 42) withdrawn
    ≡ (err (custom "SELECT details FROM oia_submissions WHERE id=$1" no_rows), withdrawn)
unfolding create_submission eq_ℤ exec
create_submission-deleted_example =
    create_submission-deleted num_ℤ (record attempt { deleted = true }) stored withdrawn refl refl
      (record { answered = refl; live = refl })

-- A task that the judge does not have.
recalculate-panic_example : recalculate num_ℤ (pos 1) (pos 99) world ≡ (panic unknown_task, world)
unfolding multiplier_of eq_ℤ
recalculate-panic_example =
    recalculate-panic num_ℤ (pos 1) (pos 99) world (record { answered = refl; live = refl }) refl
