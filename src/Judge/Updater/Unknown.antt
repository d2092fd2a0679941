-- ===== src/Judge/Updater/Unknown.antt =====
-- A recalculation at a task that the judge does not know: `SaveUserScore` of
-- oiajudge/pkg/oiajudge/store.go.
use oiaj.Base.{◌≡◌, ap, ◌∙◌, String, none}
use oiaj.Bridge.{ObjectId, Arith}
use oiaj.Store.Errors.{no_rows, custom, is_no_rows, ok, err, panic}
use oiaj.Store.Action.{recover, >>=-ok, >>=-panicked, recover-err}
use oiaj.Store.Session.Laws.{IsUp, query_row-none}
use oiaj.Judge.Tables.{JudgeWorld}
use oiaj.Judge.Submissions.{get_all_scores}
use oiaj.Judge.Scores.{
  select_multiplier, missing_multiplier, write_score, save_user_score, get_user_task_score,
}
use oiaj.Judge.Updater.{base_score, add_gain, save_best, use_scores, recalculate}
use oiaj.Judge.Updater.Recalculate.{scores_of, multiplier_of, previous_of}
use oiaj.Judge.Updater.Complete.{get_all_scores-ok, get_user_task_score-ok}

-- The text of `log.Panicf`.
abbrev pub unknown_task : String
unknown_task = "Processing submission with unkown task. Assumming multiplier = 1."

module _ {F : Type 0} (num : Arith F) where
  select_multiplier-none :
      (tid : ObjectId) (w : JudgeWorld F)
      → IsUp w
      → multiplier_of tid w.db ≡ none
      → select_multiplier tid w
        ≡ (err (custom "SELECT multiplier FROM oia_task WHERE oia_task.id = $1" no_rows), w)
  unfolding select_multiplier multiplier_of
  select_multiplier-none tid w up missing =
      query_row-none w up _ _ w.db w.sequences (ap (λ r. (ok r, w.db, w.sequences)) missing)

  save_user_score-panic :
      (uid tid : ObjectId) (score : F) (w : JudgeWorld F)
      → IsUp w
      → multiplier_of tid w.db ≡ none
      → save_user_score num uid tid score w ≡ (panic unknown_task, w)
  unfolding save_user_score missing_multiplier is_no_rows
  save_user_score-panic uid tid score w up missing =
      >>=-panicked (recover (select_multiplier tid) (missing_multiplier num)) w
        (write_score num uid tid score)
        (recover-err (select_multiplier tid) w (missing_multiplier num)
          (select_multiplier-none tid w up missing))

  -- Where PostgreSQL answers and the judge has no such task, a recalculation panics and has changed
  -- nothing.
  pub recalculate-panic :
      (uid tid : ObjectId) (w : JudgeWorld F)
      → IsUp w
      → multiplier_of tid w.db ≡ none
      → recalculate num uid tid w ≡ (panic unknown_task, w)
  unfolding recalculate use_scores save_best
  recalculate-panic uid tid w up missing =
      let scores = scores_of uid tid w.db in
      let previous = previous_of num uid tid w.db in
      >>=-ok (get_all_scores uid tid) w (use_scores num uid tid)
        (get_all_scores-ok num uid tid w up)
      ∙ >>=-ok (get_user_task_score num uid tid) w (save_best num uid tid scores)
          (get_user_task_score-ok num uid tid w up)
      ∙ >>=-panicked (save_user_score num uid tid (base_score num scores)) w
          (add_gain num uid previous)
          (save_user_score-panic uid tid (base_score num scores) w up missing)
