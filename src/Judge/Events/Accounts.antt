-- ===== src/Judge/Events/Accounts.antt =====
-- What handling an event (oiajudge/pkg/oiajudge/updater.go) does to the scores of users, and to the
-- clock that was set.
use oiaj.Base.{
  ℕ, ◌≡◌, refl, sym, ap, ◌∙◌, inl, inr, true, ◌||◌, Option, List, [], ◌∷◌, arith, All-append, any,
  update, Bool-cases,
}
use mathlib.Core.Path.{subst}
use oiaj.Base.Int.{ℤ, eq_ℤ_iff}
use oiaj.Bridge.{ObjectId, Arith, Submission, Task, Event, EventType, submission, task, unknown}
use oiaj.Store.Errors.{Error, is_no_rows}
use oiaj.Store.Action.{◌>>◌, pure, recover, >>=-state}
use oiaj.Store.Session.Keeping.{
  IsKeeping, >>=-IsKeeping, recover-IsKeeping, exec-IsKeeping, query_row-IsKeeping, query-IsKeeping,
  with_local_tx-IsKeeping,
}
use oiaj.Judge.Tables.{UserRow, TaskScoreRow, Db, JudgeTx, has_user}
use oiaj.Judge.Users.{is_user}
use oiaj.Judge.Users.Accounts.{IsOwned, IsSettled, update_users-IsOwned}
use oiaj.Judge.Submissions.{create_submission, get_all_scores}
use oiaj.Judge.Tasks.{save_task}
use oiaj.Judge.Scores.{
  is_result, replace_scores, put_score, upsert_score, missing_multiplier, select_multiplier,
  write_row, write_score, save_user_score, no_score_yet, select_score, get_user_task_score,
  add_score, increment_user_score,
}
use oiaj.Judge.Updater.{
  base_score, add_gain, save_best, use_scores, recalculate, store_submission, store_task,
}
use oiaj.Judge.Updater.Balance.{IsExact}
use oiaj.Judge.Server.{Config, Server, on_judge, on_contest}
use oiaj.Judge.Server.Keeping.{Holds, IsStable}
use oiaj.Judge.Events.{handle_submission, handle_task, dispatch, handle_event}
use oiaj.Judge.Events.Balance.{
  create_submission-SameScores, save_task-SameScores, handle_event-IsBalanced,
}

module _ {F : Type 0} where
  -- Who has a score is a user.
  scored_is_user :
      (uid tid : ObjectId) (users : List (UserRow F)) (rows : List (TaskScoreRow F))
      → any (is_result uid tid) rows ≡ true
      → IsOwned users rows
      → any (is_user uid) users ≡ true
  scored_is_user uid tid users [] h k = absurd (ground arith)
  scored_is_user uid tid users (r ∷ rows) h k = elim (Bool-cases (is_result uid tid r)) [
    | inl hit ↦
        let same : r.user_id ≡ uid = (eq_ℤ_iff r.user_id uid).0 (ground arith) in
        ap (λ i. any (is_user i) users) (sym same) ∙ k.0
    | inr miss ↦ scored_is_user uid tid users rows (rw miss at h) k.1
  ]

  update_score-IsOwned :
      (uid tid : ObjectId) (new : TaskScoreRow F) (users : List (UserRow F))
      (rows : List (TaskScoreRow F))
      → IsOwned users rows
      → IsOwned users (update (is_result uid tid) (replace_scores new) rows)
  unfolding replace_scores
  update_score-IsOwned uid tid new users [] h = tt
  update_score-IsOwned uid tid new users (r ∷ rows) h = elim (Bool-cases (is_result uid tid r)) [
    | inl hit ↦ rw hit (h.0, update_score-IsOwned uid tid new users rows h.1)
    | inr miss ↦ rw miss (h.0, update_score-IsOwned uid tid new users rows h.1)
  ]

  put_score-IsOwned :
      (new : TaskScoreRow F) (users : List (UserRow F)) (rows : List (TaskScoreRow F))
      → any (is_user new.user_id) users ≡ true
      → IsOwned users rows
      → IsOwned users (put_score new rows)
  unfolding put_score
  put_score-IsOwned new users rows known h =
      elim (Bool-cases (any (is_result new.user_id new.task_id) rows)) [
        | inl there ↦ rw there (update_score-IsOwned new.user_id new.task_id new users rows h)
        | inr absent ↦
            rw absent
              (All-append (λ r. any (is_user r.user_id) users ≡ true) rows (new ∷ []) h (known, tt))
      ]

  abbrev Owned : Db F → Type 0
  Owned d = IsOwned d.users d.task_scores

  abbrev Keeps : {A : Type 0} → JudgeTx F A → Type 0
  Keeps m = IsKeeping Owned m

  upsert_score-IsOwned :
      (new : TaskScoreRow F) (d : Db F) (s : ℕ) → Owned d → Owned (upsert_score new d s).1
  unfolding upsert_score
  upsert_score-IsOwned new d s h =
      elim (Bool-cases
        (any (is_result new.user_id new.task_id) d.task_scores || has_user new.user_id d)) [
          | inl allowed ↦
              let known : any (is_user new.user_id) d.users ≡ true =
                elim (Bool-cases (any (is_result new.user_id new.task_id) d.task_scores)) [
                  | inl there ↦ scored_is_user new.user_id new.task_id d.users d.task_scores there h
                  | inr absent ↦ rw absent at allowed
                ] in
              rw allowed (put_score-IsOwned new d.users d.task_scores known h)
          | inr refused ↦ rw refused h
        ]

module _ {F : Type 0} (num : Arith F) where
  increment_user_score-IsOwned :
      (uid : ObjectId) (delta : F) → Keeps (increment_user_score num uid delta)
  unfolding increment_user_score add_score
  increment_user_score-IsOwned uid delta =
      exec-IsKeeping Owned _ _
        λ d s h. update_users-IsOwned uid (add_score num delta) d.users d.task_scores (λ u. refl) h

  write_score-IsOwned : (uid tid : ObjectId) (b m : F) → Keeps (write_score num uid tid b m)
  unfolding write_score write_row
  write_score-IsOwned uid tid b m =
      >>=-IsKeeping Owned (write_row num uid tid b m) (λ _. pure (num.mul b m))
        (exec-IsKeeping Owned _ (upsert_score _) λ d s h. upsert_score-IsOwned _ d s h) λ u w h. h

  missing_multiplier-IsOwned : (e : Error) → Keeps (missing_multiplier num e)
  unfolding missing_multiplier
  missing_multiplier-IsOwned e w h = elim (Bool-cases (is_no_rows e)) [
    | inl missing ↦ rw missing h
    | inr other ↦ rw other h
  ]

  save_user_score-IsOwned : (uid tid : ObjectId) (b : F) → Keeps (save_user_score num uid tid b)
  unfolding save_user_score select_multiplier
  save_user_score-IsOwned uid tid b =
      >>=-IsKeeping Owned (recover (select_multiplier tid) (missing_multiplier num))
        (write_score num uid tid b)
        (recover-IsKeeping Owned (select_multiplier tid) (missing_multiplier num)
          (query_row-IsKeeping Owned _ _ λ d s h. h) missing_multiplier-IsOwned)
        (write_score-IsOwned uid tid b)

  no_score_yet-IsOwned : (e : Error) → Keeps (no_score_yet num e)
  unfolding no_score_yet
  no_score_yet-IsOwned e w h = elim (Bool-cases (is_no_rows e)) [
    | inl missing ↦ rw missing h
    | inr other ↦ rw other h
  ]

  get_user_task_score-IsOwned : (uid tid : ObjectId) → Keeps (get_user_task_score num uid tid)
  unfolding get_user_task_score select_score
  get_user_task_score-IsOwned uid tid =
      recover-IsKeeping Owned (select_score uid tid) (no_score_yet num)
        (query_row-IsKeeping Owned _ _ λ d s h. h) no_score_yet-IsOwned

  recalculate-IsOwned : (uid tid : ObjectId) → Keeps (recalculate num uid tid)
  unfolding recalculate use_scores save_best add_gain get_all_scores
  recalculate-IsOwned uid tid =
      >>=-IsKeeping Owned (get_all_scores uid tid) (use_scores num uid tid)
        (query-IsKeeping Owned _ _)
        λ scores.
          >>=-IsKeeping Owned (get_user_task_score num uid tid) (save_best num uid tid scores)
            (get_user_task_score-IsOwned uid tid)
            λ p.
              >>=-IsKeeping Owned (save_user_score num uid tid (base_score num scores))
                (add_gain num uid p) (save_user_score-IsOwned uid tid (base_score num scores))
                λ score. increment_user_score-IsOwned uid (num.sub score p)

  store_submission-IsOwned : (s : Submission F) → Keeps (store_submission num s)
  unfolding store_submission
  store_submission-IsOwned s =
      with_local_tx-IsKeeping Owned
        (create_submission num s >> recalculate num s.user_id s.problem_id)
        (>>=-IsKeeping Owned (create_submission num s) (λ _. recalculate num s.user_id s.problem_id)
          (λ w h. let same = create_submission-SameScores num s w in rw (same.0, same.1) h)
          λ u. recalculate-IsOwned s.user_id s.problem_id)

  store_task-IsOwned : (t : Task F) → Keeps (store_task num t)
  unfolding store_task
  store_task-IsOwned t =
      with_local_tx-IsKeeping Owned (save_task num t)
        λ w h. let same = save_task-SameScores num t w in rw (same.0, same.1) h

module _ {F B : Type 0} (config : Config F B) where
  dispatch-IsOwned :
      (kind : EventType) (id : ObjectId) (s : Server F B)
      → Owned s.judge.db
      → Owned (dispatch config kind id s).1.judge.db
  unfolding dispatch handle_submission handle_task
  dispatch-IsOwned submission id s h =
      >>=-state (λ s. Owned s.judge.db) (on_contest (config.bridge.get_submission id))
        (λ x. on_judge (store_submission config.num x)) s h
        λ x. store_submission-IsOwned config.num x s.judge h
  dispatch-IsOwned task id s h =
      >>=-state (λ s. Owned s.judge.db) (on_contest (config.bridge.get_task id))
        (λ x. on_judge (store_task config.num x)) s h λ x. store_task-IsOwned config.num x s.judge h
  dispatch-IsOwned (unknown name) id s h = h

  -- An event leaves the clock that was set alone.
  dispatch-clock :
      (kind : EventType) (id : ObjectId) (s : Server F B)
      → (dispatch config kind id s).1.mock_time ≡ s.mock_time
  unfolding dispatch handle_submission handle_task
  dispatch-clock submission id s =
      >>=-state (λ t. t.mock_time ≡ s.mock_time) (on_contest (config.bridge.get_submission id))
        (λ x. on_judge (store_submission config.num x)) s refl λ x. refl
  dispatch-clock task id s =
      >>=-state (λ t. t.mock_time ≡ s.mock_time) (on_contest (config.bridge.get_task id))
        (λ x. on_judge (store_task config.num x)) s refl λ x. refl
  dispatch-clock (unknown name) id s = refl

  -- What holds of the instant that was set holds after an event.
  pub handle_event-clock :
      (M : Option ℤ → Type 0) (event : Event)
      → IsStable (Holds (λ (d : Db F). Unit {0}) M) (handle_event config event)
  unfolding handle_event
  handle_event-clock M event s h =
      (tt, subst M (sym (dispatch-clock event.event_type event.object_id s)) h.1)

  -- Whatever happens on the way, the scores add up and belong to users after an event too.
  pub handle_event-IsStable :
      (law : IsExact config.num) (M : Option ℤ → Type 0) (event : Event)
      → IsStable (Holds (IsSettled config.num) M) (handle_event config event)
  unfolding handle_event
  handle_event-IsStable law M event s h = (
    record {
      balanced = handle_event-IsBalanced config law event s h.0.balanced;
      owned = dispatch-IsOwned event.event_type event.object_id s h.0.owned;
    },
    (handle_event-clock M event s (tt, h.1)).1,
  )
