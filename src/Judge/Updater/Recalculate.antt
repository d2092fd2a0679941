-- ===== src/Judge/Updater/Recalculate.antt =====
-- What `recalculateUserScoreForTask` does to the database, as one function of the tables.
use mathlib.Core.Option
use oiaj.Base.{
  ℕ, ◌≡◌, refl, ap, ◌∙◌, inl, inr, true, false, Option, none, some, List, map, arith, first, select,
  update, Bool-cases,
}
use oiaj.Bridge.{ObjectId, Arith}
use oiaj.Store.Errors.{Error, is_no_rows, ok, err}
use oiaj.Store.Action.{pure, recover, >>=-inv, recover-inv}
use oiaj.Store.Session.{pass}
use oiaj.Store.Session.Inverse.{select-inv, exec-inv, look-missing, look-failed, scan-inv}
use oiaj.Judge.Tables.{TaskScoreRow, Db, JudgeWorld}
use oiaj.Judge.Users.{is_user}
use oiaj.Judge.Submissions.{is_attempt, get_all_scores}
use oiaj.Judge.Tasks.{is_task}
use oiaj.Judge.Scores.{
  is_result, upsert_score, put_score, select_multiplier, missing_multiplier, write_row, write_score,
  save_user_score, select_score, no_score_yet, get_user_task_score, add_score, increment_user_score,
}
use oiaj.Judge.Updater.{base_score, add_gain, save_best, use_scores, recalculate}

module _ {F : Type 0} where
  -- The subtask scores of each submission of a user at a task.
  unfoldable pub scores_of : ObjectId → ObjectId → Db F → List (List F)
  scores_of uid tid d = map (λ r. r.subtask_details) (select (is_attempt uid tid) d.submissions)

  unfoldable pub multiplier_of : ObjectId → Db F → Option F
  multiplier_of tid d = Option.map (λ r. r.multiplier) (first (is_task tid) d.tasks)

  unfoldable pub score_or : F → Option (TaskScoreRow F) → F
  score_or z none = z
  score_or z (some r) = r.score

  -- The score of a user at a task, zero before the first one.
  unfoldable pub previous_of : Arith F → ObjectId → ObjectId → Db F → F
  unfolding score_or
  previous_of num uid tid d = score_or num.zero (first (is_result uid tid) d.task_scores)

module _ {F : Type 0} (num : Arith F) where
  -- The new score of the user at the task, and what it changes: its row, and the sum of the user.
  unfoldable pub rescored_from : List (List F) → ObjectId → ObjectId → F → Db F → Db F
  unfolding previous_of put_score add_score
  rescored_from scores uid tid multiplier d =
      let base = base_score num scores in
      record d {
        task_scores =
            put_score
              (record {
                user_id = uid;
                task_id = tid;
                score = num.to_real (num.mul base multiplier);
                base_score = num.to_real base;
              })
              d.task_scores;
        users =
            update (is_user uid)
              (add_score num (num.sub (num.mul base multiplier) (previous_of num uid tid d)))
              d.users;
      }

  unfoldable pub rescored : ObjectId → ObjectId → F → Db F → Db F
  unfolding scores_of rescored_from
  rescored uid tid multiplier d = rescored_from (scores_of uid tid d) uid tid multiplier d

  get_all_scores-inv :
      (uid tid : ObjectId) (w w' : JudgeWorld F) (v : List (List F))
      → get_all_scores uid tid w ≡ (ok v, w')
      → w'.aborted ≡ false
      → (v ≡ scores_of uid tid w.db) × (w' ≡ pass w)
  unfolding get_all_scores scores_of
  get_all_scores-inv uid tid w w' v h live =
      scan-inv w (map (λ r. r.subtask_details)) (λ d. select (is_attempt uid tid) d.submissions) _ v
        w' h live

  map-none : {A B : Type 0} (f : A → B) (o : Option A) → Option.map f o ≡ none → o ≡ none
  map-none f none h = refl
  map-none f (some a) h = ground arith

  select_score-inv :
      (uid tid : ObjectId) (w w' : JudgeWorld F) (p : F)
      → select_score uid tid w ≡ (ok p, w')
      → (p ≡ previous_of num uid tid w.db) × (w'.db ≡ w.db) × (w.aborted ≡ false)
  unfolding select_score previous_of
  select_score-inv uid tid w w' p h =
      let (r, found, value, same, live) =
        select-inv w w' _ (λ r. r.score) (λ d. first (is_result uid tid) d.task_scores) p h in
      (ground arith, ground arith, live)

  select_score-missing :
      (uid tid : ObjectId) (w w' : JudgeWorld F) (e : Error)
      → select_score uid tid w ≡ (err e, w')
      → is_no_rows e ≡ true
      → (num.zero ≡ previous_of num uid tid w.db) × (w'.db ≡ w.db) × (w.aborted ≡ false)
  unfolding select_score previous_of
  select_score-missing uid tid w w' e h k =
      let (gone, same, live) =
        look-missing w (Option.map (λ r. r.score)) (λ d. first (is_result uid tid) d.task_scores) _
          e w' h k in
      let absent = map-none (λ r. r.score) (first (is_result uid tid) w.db.task_scores) gone in
      (ground arith, ground arith, live)

  get_user_task_score-inv :
      (uid tid : ObjectId) (w w' : JudgeWorld F) (p : F)
      → get_user_task_score num uid tid w ≡ (ok p, w')
      → (p ≡ previous_of num uid tid w.db) × (w'.db ≡ w.db) × (w.aborted ≡ false)
  unfolding get_user_task_score
  get_user_task_score-inv uid tid w w' p h =
      elim (recover-inv (select_score uid tid) (no_score_yet num) w p w' h) [
        | inl found ↦ select_score-inv uid tid w w' p found
        | inr (e, w1, failed, handled) ↦ elim (Bool-cases (is_no_rows e)) [
          | inl missing ↦
              let (zero, same, live) = select_score-missing uid tid w w1 e failed missing in
              (ground arith, ground arith, live)
          | inr other ↦ absurd (ground arith)
        ]
      ]

  upsert_score-inv :
      (new : TaskScoreRow F) (d d' : Db F) (s s' : ℕ)
      → upsert_score new d s ≡ (ok tt, d', s')
      → d' ≡ record d { task_scores = put_score new d.task_scores }
  unfolding upsert_score
  upsert_score-inv new d d' s s' h = ground arith

  write_row-inv :
      (uid tid : ObjectId) (base m : F) (w w' : JudgeWorld F)
      → write_row num uid tid base m w ≡ (ok tt, w')
      → (w.aborted ≡ false)
        × (w'.db ≡ record w.db {
          task_scores =
              put_score
                (record {
                  user_id = uid;
                  task_id = tid;
                  score = num.to_real (num.mul base m);
                  base_score = num.to_real base;
                })
                w.db.task_scores;
        })
  unfolding write_row
  write_row-inv uid tid base m w w' h =
      let (d, s, e, same, live) = exec-inv w w' _ (upsert_score _) h in
      (live, ap (λ x. x.db) same ∙ upsert_score-inv _ w.db d w.sequences s e)

  select_multiplier-inv :
      (tid : ObjectId) (w w' : JudgeWorld F) (m : F)
      → select_multiplier tid w ≡ (ok m, w')
      → (multiplier_of tid w.db ≡ some m) × (w'.db ≡ w.db)
  unfolding select_multiplier multiplier_of
  select_multiplier-inv tid w w' m h =
      let (r, found, value, same, live) =
        select-inv w w' _ (λ r. r.multiplier) (λ d. first (is_task tid) d.tasks) m h in
      (ground arith, ground arith)

  select_multiplier-failed :
      (tid : ObjectId) (w w' : JudgeWorld F) (e : Error)
      → select_multiplier tid w ≡ (err e, w')
      → is_no_rows e ≡ false
      → w'.aborted ≡ true
  unfolding select_multiplier
  select_multiplier-failed tid w w' e h k =
      look-failed w (Option.map (λ r. r.multiplier)) (λ d. first (is_task tid) d.tasks) _ e w' h k

  -- The multiplier is that of the task: with any error but a missing row, the next statement fails.
  save_user_score-inv :
      (uid tid : ObjectId) (base : F) (w w' : JudgeWorld F) (score : F)
      → save_user_score num uid tid base w ≡ (ok score, w')
      → (m : F) × (multiplier_of tid w.db ≡ some m)
        × (score ≡ num.mul base m)
        × (w'.db ≡ record w.db {
          task_scores =
              put_score
                (record {
                  user_id = uid;
                  task_id = tid;
                  score = num.to_real (num.mul base m);
                  base_score = num.to_real base;
                })
                w.db.task_scores;
        })
  unfolding save_user_score write_score
  save_user_score-inv uid tid base w w' score h =
      let (m, w1, read, written) =
        >>=-inv (recover (select_multiplier tid) (missing_multiplier num))
          (write_score num uid tid base) w h in
      let (u, w2, stored, e) =
        >>=-inv (write_row num uid tid base m) (λ u. pure (num.mul base m)) w1 written in
      let (live, after) = write_row-inv uid tid base m w1 w2 stored in
      elim (recover-inv (select_multiplier tid) (missing_multiplier num) w m w1 read) [
        | inl found ↦
            let (known, same) = select_multiplier-inv tid w w1 m found in
            (m, known, ground arith, ground arith)
        | inr (e', w3, failed, handled) ↦ elim (Bool-cases (is_no_rows e')) [
          | inl missing ↦ absurd (ground arith)
          | inr other ↦ absurd (ground (arith, select_multiplier-failed tid w w3 e' failed other))
        ]
      ]

  increment_user_score-inv :
      (uid : ObjectId) (delta : F) (w w' : JudgeWorld F)
      → increment_user_score num uid delta w ≡ (ok tt, w')
      → (w'.db ≡ record w.db { users = update (is_user uid) (add_score num delta) w.db.users })
        × (w.aborted ≡ false)
  unfolding increment_user_score
  increment_user_score-inv uid delta w w' h =
      let (d, s, e, same, live) = exec-inv w w' _ _ h in (ground arith, live)

  use_scores-inv :
      (uid tid : ObjectId) (scores : List (List F)) (w w' : JudgeWorld F)
      → use_scores num uid tid scores w ≡ (ok tt, w')
      → (m : F) × (multiplier_of tid w.db ≡ some m)
        × (w'.db ≡ rescored_from scores uid tid m w.db)
        × (w.aborted ≡ false)
  unfolding use_scores rescored_from add_gain
  use_scores-inv uid tid scores w w' h =
      let (p, w1, read, saved) =
        >>=-inv (get_user_task_score num uid tid) (save_best num uid tid scores) w h in
      let (known, same, live) = get_user_task_score-inv uid tid w w1 p read in
      let (score, w2, stored, added) =
        >>=-inv (save_user_score num uid tid (base_score num scores)) (add_gain num uid p) w1
          saved in
      let (m, task_known, value, after) =
        save_user_score-inv uid tid (base_score num scores) w1 w2 score stored in
      let (final, live') = increment_user_score-inv uid (num.sub score p) w2 w' added in
      (m, rw same at task_known, ground arith, live)

  pub recalculate-inv :
      (uid tid : ObjectId) (w w' : JudgeWorld F)
      → recalculate num uid tid w ≡ (ok tt, w')
      → (m : F) × (multiplier_of tid w.db ≡ some m) × (w'.db ≡ rescored uid tid m w.db)
  unfolding recalculate rescored
  recalculate-inv uid tid w w' h =
      let (scores, w1, read, used) =
        >>=-inv (get_all_scores uid tid) (use_scores num uid tid) w h in
      let (m, task_known, after, live) = use_scores-inv uid tid scores w1 w' used in
      let (rows, same) = get_all_scores-inv uid tid w w1 scores read live in
      (m, ground arith, ground arith)
