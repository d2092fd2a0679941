-- ===== src/Judge/Events/Balance.antt =====
-- What handling an event (oiajudge/pkg/oiajudge/updater.go) does to the sums of the scores.
use mathlib.Core.Option
use oiaj.Base.{String, ◌≡◌, ◌≢◌, sym, ap, ◌∙◌, inl, inr, List, map, arith, first, select}
use oiaj.Bridge.{ObjectId, Arith, Submission, Task, Event, EventType, submission, task, unknown}
use oiaj.Store.Errors.{Outcome, ok, err, panic}
use oiaj.Store.Action.{◌>>=◌, recover, >>=-inv, >>=-panic}
use oiaj.Store.Session.{exec}
use oiaj.Store.Session.Atomic.{started, with_local_tx-keeps}
use oiaj.Store.Session.Inverse.{look-db, scan-db}
use oiaj.Judge.Tables.{Db, JudgeTx, JudgeWorld}
use oiaj.Judge.Submissions.{is_attempt, get_all_scores, create_submission}
use oiaj.Judge.Tasks.{is_task, save_task}
use oiaj.Judge.Scores.{
  is_result, select_multiplier, missing_multiplier, write_score, save_user_score, select_score,
  no_score_yet, get_user_task_score, increment_user_score,
}
use oiaj.Judge.Updater.{
  base_score, add_gain, save_best, use_scores, recalculate, store_submission, store_task,
}
use oiaj.Judge.Updater.Recalculate.{recalculate-inv}
use oiaj.Judge.Updater.Balance.{IsExact, IsBalanced, rescored-IsBalanced}
use oiaj.Judge.Server.{Config, Server, on_judge, on_contest}
use oiaj.Judge.Events.{handle_submission, handle_task, dispatch, handle_event}

module _ {F : Type 0} (num : Arith F) where
  -- The tables that say how the scores add up.
  abbrev pub SameScores : Db F → Db F → Type 0
  SameScores d d' = (d'.users ≡ d.users) × (d'.task_scores ≡ d.task_scores)

  SameScores-IsBalanced : (d d' : Db F) → SameScores d d' → IsBalanced num d → IsBalanced num d'
  SameScores-IsBalanced d d' same h = record {
    sums = rw (same.0, same.1) h.sums;
    keyed = rw same.1 h.keyed;
  }

  pub create_submission-SameScores :
      (s : Submission F) (w : JudgeWorld F) → SameScores w.db (create_submission num s w).1.db
  unfolding create_submission exec
  create_submission-SameScores s w = ground arith

  pub save_task-SameScores :
      (t : Task F) (w : JudgeWorld F) → SameScores w.db (save_task num t w).1.db
  unfolding save_task exec
  save_task-SameScores t w = ground arith

  write_score-calm :
      (uid tid : ObjectId) (base m : F) (w w' : JudgeWorld F) (s : String)
      → write_score num uid tid base m w ≢ (panic s, w')
  unfolding write_score exec
  write_score-calm uid tid base m w w' s h = ground arith

  increment_user_score-calm :
      (uid : ObjectId) (delta : F) (w w' : JudgeWorld F) (s : String)
      → increment_user_score num uid delta w ≢ (panic s, w')
  unfolding increment_user_score exec
  increment_user_score-calm uid delta w w' s h = ground arith

  select_multiplier-db : (tid : ObjectId) (w : JudgeWorld F) → (select_multiplier tid w).1.db ≡ w.db
  unfolding select_multiplier
  select_multiplier-db tid w =
      look-db w (Option.map (λ r. r.multiplier)) (λ d. first (is_task tid) d.tasks) _

  -- The panic on a missing task comes before anything is written.
  read_multiplier-db :
      (tid : ObjectId) (w : JudgeWorld F)
      → (recover (select_multiplier tid) (missing_multiplier num) w).1.db ≡ w.db
  unfolding missing_multiplier
  read_multiplier-db tid w = ground (arith, select_multiplier-db tid w)

  save_user_score-panic :
      (uid tid : ObjectId) (base : F) (w w' : JudgeWorld F) (s : String)
      → save_user_score num uid tid base w ≡ (panic s, w')
      → w'.db ≡ w.db
  unfolding save_user_score
  save_user_score-panic uid tid base w w' s h =
      elim (>>=-panic (recover (select_multiplier tid) (missing_multiplier num))
        (write_score num uid tid base) w s w' h) [
          | inl read ↦ ap (λ x. x.1.db) (sym read) ∙ read_multiplier-db tid w
          | inr (m, w1, read, written) ↦ absurd (write_score-calm uid tid base m w1 w' s written)
        ]

  get_user_task_score-db :
      (uid tid : ObjectId) (w : JudgeWorld F) → (get_user_task_score num uid tid w).1.db ≡ w.db
  unfolding get_user_task_score select_score no_score_yet
  get_user_task_score-db uid tid w = ground (
    arith,
    look-db w (Option.map (λ r. r.score)) (λ d. first (is_result uid tid) d.task_scores)
        "SELECT score FROM oia_task_score WHERE user_id = $1 AND task_id = $2",
  )

  get_all_scores-db :
      (uid tid : ObjectId) (w : JudgeWorld F) → (get_all_scores uid tid w).1.db ≡ w.db
  unfolding get_all_scores
  get_all_scores-db uid tid w =
      scan-db w (map (λ r. r.subtask_details)) (λ d. select (is_attempt uid tid) d.submissions) _

  save_best-panic :
      (uid tid : ObjectId) (scores : List (List F)) (p : F) (w w' : JudgeWorld F) (s : String)
      → save_best num uid tid scores p w ≡ (panic s, w')
      → w'.db ≡ w.db
  unfolding save_best add_gain
  save_best-panic uid tid scores p w w' s h =
      elim (>>=-panic (save_user_score num uid tid (base_score num scores)) (add_gain num uid p) w s
        w' h) [
          | inl saved ↦ save_user_score-panic uid tid (base_score num scores) w w' s saved
          | inr (x, w1, saved, added) ↦ absurd (increment_user_score-calm uid _ w1 w' s added)
        ]

  use_scores-panic :
      (uid tid : ObjectId) (scores : List (List F)) (w w' : JudgeWorld F) (s : String)
      → use_scores num uid tid scores w ≡ (panic s, w')
      → w'.db ≡ w.db
  unfolding use_scores
  use_scores-panic uid tid scores w w' s h =
      elim (>>=-panic (get_user_task_score num uid tid) (save_best num uid tid scores) w s w' h) [
        | inl read ↦ ap (λ x. x.1.db) (sym read) ∙ get_user_task_score-db uid tid w
        | inr (p, w1, read, saved) ↦
            save_best-panic uid tid scores p w1 w' s saved
            ∙ ap (λ x. x.1.db) (sym read)
            ∙ get_user_task_score-db uid tid w
      ]

  recalculate-panic :
      (uid tid : ObjectId) (w w' : JudgeWorld F) (s : String)
      → recalculate num uid tid w ≡ (panic s, w')
      → w'.db ≡ w.db
  unfolding recalculate
  recalculate-panic uid tid w w' s h =
      elim (>>=-panic (get_all_scores uid tid) (use_scores num uid tid) w s w' h) [
        | inl read ↦ ap (λ x. x.1.db) (sym read) ∙ get_all_scores-db uid tid w
        | inr (v, w1, read, used) ↦
            use_scores-panic uid tid v w1 w' s used
            ∙ ap (λ x. x.1.db) (sym read)
            ∙ get_all_scores-db uid tid w
      ]

module _ {F : Type 0} (num : Arith F) (law : IsExact num) where
  store_submission-IsBalanced :
      (s : Submission F) (w : JudgeWorld F)
      → IsBalanced num w.db
      → IsBalanced num (store_submission num s w).1.db
  unfolding store_submission
  store_submission-IsBalanced s w h =
      let kept =
        λ (w1 w2 : JudgeWorld F) (e : (create_submission num s w1).1.db ≡ w2.db)
            (k : IsBalanced num w1.db).
          SameScores-IsBalanced num w1.db w2.db (rw e at (create_submission-SameScores num s w1))
            k in
      with_local_tx-keeps _ w (IsBalanced num) h
        (λ u w' done.
          let (v, w1, created, scored) =
            >>=-inv (create_submission num s) (λ v. recalculate num s.user_id s.problem_id)
              (started w) done in
          let (m, task_known, after) = recalculate-inv num s.user_id s.problem_id w1 w' scored in
          rw after (
            rescored-IsBalanced num law s.user_id s.problem_id m w1.db
              (kept (started w) w1 (ap (λ x. x.1.db) created) h)))
        (λ m w' stopped.
          elim (>>=-panic (create_submission num s) (λ v. recalculate num s.user_id s.problem_id)
            (started w) m w' stopped) [
              | inl created ↦ kept (started w) w' (ap (λ x. x.1.db) created) h
              | inr (v, w1, created, scored) ↦
                  rw (recalculate-panic num s.user_id s.problem_id w1 w' m scored)
                    (kept (started w) w1 (ap (λ x. x.1.db) created) h)
            ])

  store_task-IsBalanced :
      (t : Task F) (w : JudgeWorld F)
      → IsBalanced num w.db
      → IsBalanced num (store_task num t w).1.db
  unfolding store_task
  store_task-IsBalanced t w h =
      let kept = λ (w' : JudgeWorld F) (e : (save_task num t (started w)).1.db ≡ w'.db).
        SameScores-IsBalanced num w.db w'.db (rw e at (save_task-SameScores num t (started w))) h in
      with_local_tx-keeps _ w (IsBalanced num) h (λ u w' done. kept w' (ap (λ x. x.1.db) done))
        (λ m w' stopped. kept w' (ap (λ x. x.1.db) stopped))

module _ {F B : Type 0} (config : Config F B) (law : IsExact config.num) where
  answered_keeps :
      {A : Type 0} (x : Outcome A × B) (k : A → JudgeTx F Unit) (s : Server F B)
      → ((a : A) → IsBalanced config.num (k a s.judge).1.db)
      → IsBalanced config.num s.judge.db
      → IsBalanced config.num ((on_contest (λ b. x) >>= λ a. on_judge (k a)) s).1.judge.db
  answered_keeps (ok a, b) k s step h = step a
  answered_keeps (err e, b) k s step h = h
  answered_keeps (panic m, b) k s step h = h

  handle_submission-IsBalanced :
      (id : ObjectId) (s : Server F B)
      → IsBalanced config.num s.judge.db
      → IsBalanced config.num (handle_submission config id s).1.judge.db
  unfolding handle_submission
  handle_submission-IsBalanced id s h =
      answered_keeps (config.bridge.get_submission id s.contest) (store_submission config.num) s
        (λ x. store_submission-IsBalanced config.num law x s.judge h) h

  handle_task-IsBalanced :
      (id : ObjectId) (s : Server F B)
      → IsBalanced config.num s.judge.db
      → IsBalanced config.num (handle_task config id s).1.judge.db
  unfolding handle_task
  handle_task-IsBalanced id s h =
      answered_keeps (config.bridge.get_task id s.contest) (store_task config.num) s
        (λ x. store_task-IsBalanced config.num law x s.judge h) h

  dispatch-IsBalanced :
      (t : EventType) (id : ObjectId) (s : Server F B)
      → IsBalanced config.num s.judge.db
      → IsBalanced config.num (dispatch config t id s).1.judge.db
  unfolding dispatch
  dispatch-IsBalanced submission id s h = handle_submission-IsBalanced id s h
  dispatch-IsBalanced task id s h = handle_task-IsBalanced id s h
  dispatch-IsBalanced (unknown name) id s h = h

  -- Where the arithmetic is exact and the tables are balanced (each user's score is the sum of the
  -- user's task scores, of which there is at most one per user and task), they are balanced after
  -- every event, whatever the contest system answers, whatever PostgreSQL fails at, and also when
  -- the handler panics.
  pub handle_event-IsBalanced :
      (event : Event) (s : Server F B)
      → IsBalanced config.num s.judge.db
      → IsBalanced config.num (handle_event config event s).1.judge.db
  unfolding handle_event
  handle_event-IsBalanced event s h = dispatch-IsBalanced event.event_type event.object_id s h
