-- ===== src/Cms/Arrival.antt =====
-- From `MakeSubmission` of oiajudge/pkg/cmsbridge/submission.go to the channel of
-- oiajudge/pkg/cmsbridge/store.go.
use oiaj.Base.{
  any-perm, ◌+◌, ◌≡◌, refl, ap, ◌∙◌, Bool, true, false, ◌&&◌, List, [], ◌∷◌, ◌++◌, map, select, any,
  arith, Bool-cases, inl, inr,
}
use oiaj.Base.Int.{pos, eq_ℤ, eq_ℤ_refl}
use oiaj.Text.Bytes.{bytes_eq}
use oiaj.Bridge.{ObjectId, Event, EventType, submission, task, unknown, Sources}
use oiaj.Store.Errors.{ok}
use oiaj.Cms.Tables.{QueueRow, CmsWorld, Schema}
use oiaj.Cms.Platform.{Platform, Sorts}
use oiaj.Cms.Queue.{event_of, event_type_of, is_new}
use oiaj.Cms.Channel.{event, push_existing_rows}
use oiaj.Cms.Channel.Push.{marked, push_existing_rows-waiting}
use oiaj.Cms.Impl.{Settings, make_submission}
use oiaj.Cms.Sent.{sent_event, make_submission-sent}

-- An event tells of a submission.
abbrev is_of_submission : EventType → Bool
is_of_submission submission = true
is_of_submission task = false
is_of_submission (unknown name) = false

abbrev pub tells_of : ObjectId → Event → Bool
tells_of sid e = is_of_submission e.event_type && eq_ℤ e.object_id sid

sent_event-tells : (id sid : ObjectId) → tells_of sid (event_of (sent_event id sid)) ≡ true
unfolding event_of event_type_of bytes_eq
sent_event-tells id sid = eq_ℤ_refl sid

-- A new row at the end of a queue is among the events that wait.
any_waiting :
    (p : Event → Bool) (q : List QueueRow) (r : QueueRow)
    → r.seen ≡ false
    → p (event_of r) ≡ true
    → any p (map event_of (select is_new (q ++ r ∷ []))) ≡ true
any_waiting p [] r new h = rw new (ground (arith, h))
any_waiting p (x ∷ q) r new h = elim (Bool-cases x.seen) [
  | inl seen ↦ rw seen (any_waiting p q r new h)
  | inr unseen ↦ rw unseen (ground (arith, any_waiting p q r new h))
]

module _ {F : Type 0} (go : Platform F) (law : Sorts go.sort_events) (schema : Schema F)
    (settings : Settings) where
  -- Where `sort.Slice` sorts, a submission that was sent without an error is told of by an event of
  -- the next notification that PostgreSQL answers, which carries the submission's id.
  pub make_submission-push :
      (uid task_id : ObjectId) (sources : Sources) (w w' : CmsWorld F)
      → make_submission go schema settings uid task_id sources w ≡ (ok tt, w')
      → w'.schedule ≡ []
      → (evs : List Event) × (push_existing_rows go w'
          ≡ (ok (map event evs), record (marked w') { aborted = false }))
        × (any (tells_of (pos (w.sequences.submissions + 1))) evs ≡ true)
  unfolding oiaj.Cms.Queue.mark
  make_submission-push uid task_id sources w w' ran quiet =
      let sid = pos (w.sequences.submissions + 1) in
      let id = pos (w.sequences.events + 1) in
      let (p, joined, submissions, queue, files) =
        make_submission-sent go schema settings uid task_id sources w w' ran in
      let (evs, pushed, perm, ordered) = push_existing_rows-waiting go law w' quiet in
      (
        evs,
        pushed,
        any-perm (tells_of sid) perm
            ∙ ap (λ q. any (tells_of sid) (map event_of (select is_new q))) queue
            ∙ any_waiting (tells_of sid) w.db.queue (sent_event id sid) refl
                (sent_event-tells id sid),
      )
