-- ===== src/Judge/Updater/Complete.antt =====
-- `recalculateUserScoreForTask` of oiajudge/pkg/oiajudge/updater.go when PostgreSQL answers.
use oiaj.Base.{
  ◌≡◌, refl, sym, ap, ◌∙◌, inl, inr, true, none, some, arith, first, update, Option-cases,
}
use mathlib.Core.Option
use oiaj.Bridge.{ObjectId, Arith}
use oiaj.Store.Errors.{custom, no_rows, is_no_rows, ok, err}
use oiaj.Store.Action.{recover, pure, >>=-ok, recover-ok, recover-err}
use oiaj.Store.Session.Laws.{IsUp, exec-ok, query_row-some, query_row-none, query-ok}
use oiaj.Judge.Tables.{TaskScoreRow, JudgeWorld, has_user}
use oiaj.Judge.Users.{is_user}
use oiaj.Judge.Submissions.{get_all_scores}
use oiaj.Judge.Scores.{
  is_result, upsert_score, put_score, select_multiplier, missing_multiplier, write_row, write_score,
  save_user_score, select_score, no_score_yet, get_user_task_score, add_score, increment_user_score,
}
use oiaj.Judge.Updater.{base_score, add_gain, save_best, use_scores, recalculate}
use oiaj.Judge.Updater.Recalculate.{
  scores_of, multiplier_of, score_or, previous_of, rescored_from, rescored,
}

module _ {F : Type 0} (num : Arith F) where
  -- The world with the row of the user at the task replaced.
  abbrev with_row : ObjectId → ObjectId → F → F → JudgeWorld F → JudgeWorld F
  with_row uid tid score base w = record w {
    db = record w.db {
      task_scores =
          put_score
            (record {
              user_id = uid;
              task_id = tid;
              score = num.to_real score;
              base_score = num.to_real base;
            })
            w.db.task_scores;
    };
  }

  pub get_all_scores-ok :
      (uid tid : ObjectId) (w : JudgeWorld F)
      → IsUp w
      → get_all_scores uid tid w ≡ (ok (scores_of uid tid w.db), w)
  unfolding get_all_scores scores_of
  get_all_scores-ok uid tid w up = query-ok w up _ _ _ w.db w.sequences refl

  select_score-missing :
      (uid tid : ObjectId) (w : JudgeWorld F)
      → IsUp w
      → first (is_result uid tid) w.db.task_scores ≡ none
      → select_score uid tid w ≡ (
        err (custom "SELECT score FROM oia_task_score WHERE user_id = $1 AND task_id = $2" no_rows),
        w,
      )
  unfolding select_score
  select_score-missing uid tid w up missing =
      query_row-none w up _ _ w.db w.sequences
        (ap (λ r. (ok (Option.map (λ r. r.score) r), w.db, w.sequences)) missing)

  select_score-found :
      (uid tid : ObjectId) (r : TaskScoreRow F) (w : JudgeWorld F)
      → IsUp w
      → first (is_result uid tid) w.db.task_scores ≡ some r
      → select_score uid tid w ≡ (ok r.score, w)
  unfolding select_score
  select_score-found uid tid r w up found =
      query_row-some w up _ _ r.score w.db w.sequences
        (ap (λ r. (ok (Option.map (λ r. r.score) r), w.db, w.sequences)) found)

  pub get_user_task_score-ok :
      (uid tid : ObjectId) (w : JudgeWorld F)
      → IsUp w
      → get_user_task_score num uid tid w ≡ (ok (previous_of num uid tid w.db), w)
  unfolding get_user_task_score no_score_yet is_no_rows previous_of score_or
  get_user_task_score-ok uid tid w up =
      elim (Option-cases (first (is_result uid tid) w.db.task_scores)) [
        | inl missing ↦
            recover-err (select_score uid tid) w (no_score_yet num)
              (select_score-missing uid tid w up missing)
            ∙ ap (λ r. (ok (score_or num.zero r), w)) (sym missing)
        | inr (r, found) ↦
            recover-ok (select_score uid tid) w (no_score_yet num)
              (select_score-found uid tid r w up found)
            ∙ ap (λ r. (ok (score_or num.zero r), w)) (sym found)
      ]

  write_row-ok :
      (uid tid : ObjectId) (score m : F) (w : JudgeWorld F)
      → IsUp w
      → has_user uid w.db ≡ true
      → write_row num uid tid score m w ≡ (ok tt, with_row uid tid (num.mul score m) score w)
  unfolding write_row upsert_score
  write_row-ok uid tid score m w up known = exec-ok w up _ _ _ w.sequences (ground (arith, known))

  select_multiplier-ok :
      (tid : ObjectId) (m : F) (w : JudgeWorld F)
      → IsUp w
      → multiplier_of tid w.db ≡ some m
      → select_multiplier tid w ≡ (ok m, w)
  unfolding select_multiplier multiplier_of
  select_multiplier-ok tid m w up listed =
      query_row-some w up _ _ m w.db w.sequences (ap (λ r. (ok r, w.db, w.sequences)) listed)

  save_user_score-ok :
      (uid tid : ObjectId) (score m : F) (w : JudgeWorld F)
      → IsUp w
      → has_user uid w.db ≡ true
      → multiplier_of tid w.db ≡ some m
      → save_user_score num uid tid score w
        ≡ (ok (num.mul score m), with_row uid tid (num.mul score m) score w)
  unfolding save_user_score write_score
  save_user_score-ok uid tid score m w up known listed =
      >>=-ok (recover (select_multiplier tid) (missing_multiplier num)) w
        (write_score num uid tid score)
        (recover-ok (select_multiplier tid) w (missing_multiplier num)
          (select_multiplier-ok tid m w up listed))
      ∙ >>=-ok (write_row num uid tid score m) w (λ _. pure (num.mul score m))
          (write_row-ok uid tid score m w up known)

  increment_user_score-ok :
      (uid : ObjectId) (delta : F) (w : JudgeWorld F)
      → IsUp w
      → increment_user_score num uid delta w ≡ (
        ok tt,
        record w {
          db = record w.db { users = update (is_user uid) (add_score num delta) w.db.users };
        },
      )
  unfolding increment_user_score
  increment_user_score-ok uid delta w up = exec-ok w up _ _ _ w.sequences refl

  -- Where PostgreSQL answers, the user is known and the task has a multiplier, a recalculation
  -- returns no error and leaves the rescored tables.
  pub recalculate-ok :
      (uid tid : ObjectId) (m : F) (w : JudgeWorld F)
      → IsUp w
      → has_user uid w.db ≡ true
      → multiplier_of tid w.db ≡ some m
      → recalculate num uid tid w ≡ (ok tt, record w { db = rescored num uid tid m w.db })
  unfolding recalculate use_scores save_best add_gain rescored rescored_from
  recalculate-ok uid tid m w up known listed =
      let scores = scores_of uid tid w.db in
      let base = base_score num scores in
      let previous = previous_of num uid tid w.db in
      let w1 = with_row uid tid (num.mul base m) base w in
      >>=-ok (get_all_scores uid tid) w (use_scores num uid tid) (get_all_scores-ok uid tid w up)
      ∙ >>=-ok (get_user_task_score num uid tid) w (save_best num uid tid scores)
          (get_user_task_score-ok uid tid w up)
      ∙ >>=-ok (save_user_score num uid tid base) w (add_gain num uid previous)
          (save_user_score-ok uid tid base m w up known listed)
      ∙ increment_user_score-ok uid (num.sub (num.mul base m) previous) w1
          (record { answered = up.answered; live = up.live })
