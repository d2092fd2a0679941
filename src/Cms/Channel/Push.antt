-- ===== src/Cms/Channel/Push.antt =====
-- What a notification sends into the channel: `push_existing_rows` of
-- oiajudge/pkg/cmsbridge/store.go.
use oiaj.Base.{
  ◌≡◌, refl, ◌≢◌, ◌⊎◌, true, inl, inr, All, All-mono, ltb, not, ◌∙◌, false, List, [], ◌∷◌, map,
  arith, select,
}
use mathlib.Core.List.{Permᴰ}
use oiaj.Bridge.{Event, EventType, submission, task, unknown}
use oiaj.Store.Errors.{ok}
use oiaj.Store.Action.{pure, ◌>>◌, ◌>>=◌, >>=-ok, recover-ok}
use oiaj.Store.Session.{with_tx}
use oiaj.Store.Session.Laws.{IsUp, exec-ok, query-ok}
use oiaj.Store.Session.Finish.{with_tx-up}
use oiaj.Cms.Tables.{QueueRow, CmsDb, CmsWorld}
use oiaj.Cms.Platform.{Platform, Sorts, IsWeakOrder, IsOrdered}
use oiaj.Cms.Queue.{event_of, is_new, mark, select_new, mark_all, get_notifications}
use oiaj.Cms.Channel.{event, failure, priority, goes_before, push_existing_rows}

goes_before-IsWeakOrder : IsWeakOrder goes_before
goes_before-IsWeakOrder = record { asym = λ a b. ground arith; split = λ a b c. ground arith }

-- Behind the event of a submission come only events of submissions.
abbrev pub IsTasksFirst : List Event → Type 0
IsTasksFirst [] = Unit
IsTasksFirst (e ∷ evs) =
    ((e.event_type ≢ submission) ⊎ All (λ later. later.event_type ≡ submission) evs)
    × IsTasksFirst evs

after_submission : (k : EventType) → ltb (priority k) (priority submission) ≡ false → k ≡ submission
unfolding priority
after_submission submission h = refl
after_submission task h = absurd (ground arith)
after_submission (unknown name) h = absurd (ground arith)

only_submissions :
    (k : EventType) (evs : List Event)
    → All (λ later. ltb (priority later.event_type) (priority k) ≡ false) evs
    → (k ≢ submission) ⊎ All (λ later. later.event_type ≡ submission) evs
only_submissions submission evs h = inr (
    All-mono (λ later. ltb (priority later.event_type) (priority submission) ≡ false)
      (λ later. later.event_type ≡ submission) evs (λ later. after_submission later.event_type) h)
only_submissions task evs h = inl (λ e. ground arith)
only_submissions (unknown name) evs h = inl (λ e. ground arith)

ordered-IsTasksFirst : (evs : List Event) → IsOrdered goes_before evs → IsTasksFirst evs
ordered-IsTasksFirst [] h = tt
ordered-IsTasksFirst (e ∷ evs) (first, rest) =
    (only_submissions e.event_type evs first, ordered-IsTasksFirst evs rest)

module _ {F : Type 0} where
  -- The events that wait in the queue, and the queue once they are marked.
  abbrev pub waiting : CmsDb F → List Event
  waiting d = map event_of (select is_new d.queue)

  abbrev pub marked : CmsWorld F → CmsWorld F
  marked w = record w { db = record w.db { queue = map mark w.db.queue } }

  get_notifications-ok :
      (w : CmsWorld F) → IsUp w → get_notifications w ≡ (ok (waiting w.db), marked w)
  unfolding get_notifications select_new mark_all
  get_notifications-ok w up =
      >>=-ok select_new w (λ v. mark_all >> pure v) (query-ok w up _ _ _ w.db w.sequences refl)
      ∙ >>=-ok mark_all w (λ _. pure (waiting w.db)) (exec-ok w up _ _ _ w.sequences refl)

module _ {F : Type 0} (go : Platform F) where
  pub push_existing_rows-ok :
      (w : CmsWorld F)
      → w.schedule ≡ []
      → push_existing_rows go w ≡ (
        ok (map event (go.sort_events goes_before (waiting w.db))),
        record (marked w) { aborted = false },
      )
  unfolding push_existing_rows
  push_existing_rows-ok w quiet =
      let w0 : CmsWorld F = record w { aborted = false } in
      let up : IsUp w0 = record { answered = quiet; live = refl } in
      let done =
        with_tx-up get_notifications w (marked w0) (waiting w.db) quiet (get_notifications-ok w0 up)
          (record { answered = quiet; live = refl }) in
      let send = λ (evs : List Event). pure (map event (go.sort_events goes_before evs)) in
      recover-ok (with_tx get_notifications >>= send) w (λ e. pure (failure e ∷ []))
        (>>=-ok (with_tx get_notifications) w send done)

  -- Where PostgreSQL answers and `sort.Slice` sorts, a notification marks every row of the queue as
  -- seen, changes no other table, and sends the events of the rows that were not seen, each one as
  -- often as it waits, with nothing but submissions after a submission.
  pub push_existing_rows-waiting :
      Sorts go.sort_events
      → (w : CmsWorld F) → w.schedule ≡ []
      → (evs : List Event) × (push_existing_rows go w ≡ (
        ok (map event evs),
        record w {
          db = record w.db {
            queue = map (λ (row : QueueRow). record row { seen = true }) w.db.queue;
          };
          aborted = false;
        },
      ))
        × Permᴰ evs (map event_of (select (λ row. not row.seen) w.db.queue))
        × IsTasksFirst evs
  unfolding mark
  push_existing_rows-waiting law w quiet = (
    go.sort_events goes_before (waiting w.db),
    push_existing_rows-ok w quiet,
    law.perm goes_before (waiting w.db),
    ordered-IsTasksFirst _ (law.ordered goes_before (waiting w.db) goes_before-IsWeakOrder),
  )
