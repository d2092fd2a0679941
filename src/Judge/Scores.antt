-- ===== src/Judge/Scores.antt =====
-- Scores of users at tasks: `SaveUserScore`, `GetUserTaskScore` and `IncrementUserScore` of
-- oiajudge/pkg/oiajudge/store.go.
use oiaj.Base.{Bool, ◌&&◌, ◌||◌, List, [], ◌∷◌, ◌++◌, if◌then◌else◌, any, first, update}
use mathlib.Core.Option
use oiaj.Base.Int.{eq_ℤ}
use oiaj.Bridge.{ObjectId, Arith}
use oiaj.Store.Errors.{Error, foreign_key_violation, is_no_rows, ok, err}
use oiaj.Store.Action.{◌>>=◌, ◌>>◌, pure, throw, recover, fail_hard}
use oiaj.Store.Session.{exec, query_row}
use oiaj.Judge.Tables.{UserRow, TaskScoreRow, JudgeTx, Sql, has_user}
use oiaj.Judge.Users.{is_user}
use oiaj.Judge.Tasks.{is_task}

module _ {F : Type 0} where
  abbrev pub is_result : ObjectId → ObjectId → TaskScoreRow F → Bool
  is_result uid tid r = eq_ℤ r.user_id uid && eq_ℤ r.task_id tid

  unfoldable pub replace_scores : TaskScoreRow F → TaskScoreRow F → TaskScoreRow F
  replace_scores new r = record r { score = new.score; base_score = new.base_score }

  unfoldable pub put_score : TaskScoreRow F → List (TaskScoreRow F) → List (TaskScoreRow F)
  unfolding replace_scores
  put_score new rows =
      if any (is_result new.user_id new.task_id) rows
      then update (is_result new.user_id new.task_id) (replace_scores new) rows
      else rows ++ new ∷ []

  -- A row that is there needs no look at the foreign key.
  unfoldable pub upsert_score : TaskScoreRow F → Sql F Unit
  unfolding put_score
  upsert_score new d s =
      if any (is_result new.user_id new.task_id) d.task_scores || has_user new.user_id d
      then (ok tt, record d { task_scores = put_score new d.task_scores }, s)
      else (err foreign_key_violation, d, s)

  -- `log.Panicf` does not return. Any other error of the SELECT is overwritten by that of the
  -- INSERT, which runs with a multiplier of zero.
  unfoldable pub missing_multiplier : Arith F → Error → JudgeTx F F
  missing_multiplier num e =
      if is_no_rows e
      then fail_hard "Processing submission with unkown task. Assumming multiplier = 1."
      else pure num.zero

  unfoldable pub select_multiplier : ObjectId → JudgeTx F F
  select_multiplier tid =
      query_row "SELECT multiplier FROM oia_task WHERE oia_task.id = $1"
        λ d s. (ok (Option.map (λ r. r.multiplier) (first (is_task tid) d.tasks)), d, s)

  unfoldable pub write_row : Arith F → ObjectId → ObjectId → F → F → JudgeTx F Unit
  unfolding upsert_score
  write_row num uid tid score multiplier =
      exec
        "INSERT INTO oia_task_score(user_id, task_id, score, base_score) VALUES ($1, $2, $3, $4) ON CONFLICT (user_id, task_id) DO UPDATE SET score=EXCLUDED.score, base_score=EXCLUDED.base_score"
        (upsert_score (record {
          user_id = uid;
          task_id = tid;
          score = num.to_real (num.mul score multiplier);
          base_score = num.to_real score;
        }))

  unfoldable pub write_score : Arith F → ObjectId → ObjectId → F → F → JudgeTx F F
  unfolding write_row
  write_score num uid tid score multiplier =
      write_row num uid tid score multiplier >> pure (num.mul score multiplier)

  -- `SaveUserScore`
  unfoldable pub save_user_score : Arith F → ObjectId → ObjectId → F → JudgeTx F F
  unfolding select_multiplier missing_multiplier write_score is_no_rows
  save_user_score num uid tid score = do
    multiplier ← recover (select_multiplier tid) (missing_multiplier num)
    write_score num uid tid score multiplier

  unfoldable pub no_score_yet : Arith F → Error → JudgeTx F F
  no_score_yet num e = if is_no_rows e then pure num.zero else throw e

  unfoldable pub select_score : ObjectId → ObjectId → JudgeTx F F
  select_score uid tid =
      query_row "SELECT score FROM oia_task_score WHERE user_id = $1 AND task_id = $2"
        λ d s. (ok (Option.map (λ r. r.score) (first (is_result uid tid) d.task_scores)), d, s)

  -- `GetUserTaskScore`
  unfoldable pub get_user_task_score : Arith F → ObjectId → ObjectId → JudgeTx F F
  unfolding select_score no_score_yet is_no_rows
  get_user_task_score num uid tid = recover (select_score uid tid) (no_score_yet num)

  unfoldable pub add_score : Arith F → F → UserRow F → UserRow F
  add_score num delta u = record u { score = num.to_real (num.add u.score (num.to_real delta)) }

  -- `IncrementUserScore`
  unfoldable pub increment_user_score : Arith F → ObjectId → F → JudgeTx F Unit
  unfolding add_score
  increment_user_score num uid delta =
      exec "UPDATE oia_user SET score = score + $1 WHERE id = $2"
        λ d s. (ok tt, record d { users = update (is_user uid) (add_score num delta) d.users }, s)
