-- ===== src/Cms/Channel/Left.antt =====
-- What a notification and its rounds leave in the queue.
use oiaj.Base.{
  any-perm, ◌≡◌, refl, sym, ap, ◌∙◌, ◌⊎◌, inl, inr, true, false, ◌&&◌, ◌||◌, List, [], ◌∷◌, map,
  arith, All, All-mono, any, select, Bool-cases,
}
use mathlib.Core.Path.{subst}
use oiaj.Base.Int.{eq_ℤ, eq_ℤ_refl}
use oiaj.Bridge.{Event}
use oiaj.Store.Errors.{ok, err, panic}
use oiaj.Judge.Server.{Server, Api}
use oiaj.Cms.Tables.{QueueRow, CmsDb, CmsWorld}
use oiaj.Cms.Platform.{Platform, Sorts}
use oiaj.Cms.Queue.{event_of, is_new, mark}
use oiaj.Cms.Channel.{Item, event, goes_before, push_existing_rows, consume}
use oiaj.Cms.Channel.Push.{waiting, marked, push_existing_rows-ok}
use oiaj.Cms.Channel.Drain.{names, IsPolite, consume-Left}

any-names :
    (r : QueueRow) (evs : List Event)
    → any (names r) (map event evs) ≡ any (λ e. eq_ℤ r.id e.event_id) evs
any-names r [] = refl
any-names r (e ∷ evs) = ap (λ b. eq_ℤ r.id e.event_id || b) (any-names r evs)

-- A row with the id of `r` had been seen.
abbrev pub WasSeen : List QueueRow → QueueRow → Type 0
WasSeen q r = any (λ r0. eq_ℤ r.id r0.id && r0.seen) q ≡ true

abbrev Waits : List QueueRow → QueueRow → Type 0
Waits q r = any (λ e. eq_ℤ r.id e.event_id) (map event_of (select is_new q)) ≡ true

later :
    (r0 : QueueRow) (q : List QueueRow) (r : QueueRow)
    → WasSeen q r ⊎ Waits q r
    → WasSeen (r0 ∷ q) r ⊎ Waits (r0 ∷ q) r
later r0 q r (inl h) = inl (ground (arith, h))
later r0 q r (inr h) =
    inr (elim (Bool-cases r0.seen) [ inl seen ↦ rw seen h | inr new ↦ rw new (ground (arith, h)) ])

each_row : (q : List QueueRow) → All (λ r. WasSeen q r ⊎ Waits q r) (map mark q)
unfolding mark event_of
each_row [] = tt
each_row (r ∷ q) = (
  elim (Bool-cases r.seen) [
    | inl seen ↦ inl (ground (arith, eq_ℤ_refl r.id))
    | inr new ↦ inr (ground (arith, eq_ℤ_refl r.id))
  ],
  All-mono _ _ (map mark q) (later r q) (each_row q),
)

-- A row that waited is named by an item.
sent_for :
    {F : Type 0} (go : Platform F)
    → Sorts go.sort_events
    → (d : CmsDb F) (items : List Item) (r : QueueRow)
    → map event (go.sort_events goes_before (waiting d)) ≡ items
    → WasSeen d.queue r ⊎ Waits d.queue r
    → WasSeen d.queue r ⊎ (any (names r) items ≡ true)
sent_for go law d items r listed (inl h) = inl h
sent_for go law d items r listed (inr h) = inr (
    ap (any (names r)) (sym listed)
    ∙ any-names r (go.sort_events goes_before (waiting d))
    ∙ any-perm (λ e. eq_ℤ r.id e.event_id) (law.perm goes_before (waiting d))
    ∙ h)

module _ {F : Type 0} (go : Platform F) (law : Sorts go.sort_events) where
  -- After a notification and the rounds that it causes, where PostgreSQL answers the bridge, the
  -- handler leaves the queue alone and does not panic, and `sort.Slice` sorts, every row that is
  -- left in the queue had been marked as seen before the notification.
  pub consume-push :
      (handler : Event → Api F (CmsWorld F) Unit) (s s' : Server F (CmsWorld F)) (items : List Item)
      (w : CmsWorld F)
      → IsPolite handler
      → s.contest.schedule ≡ []
      → push_existing_rows go s.contest ≡ (ok items, w)
      → consume handler items (record s { contest = w }) ≡ (ok tt, s')
      → All (WasSeen s.contest.db.queue) s'.contest.db.queue
  consume-push handler s s' items w polite quiet pushed consumed =
      let q = s.contest.db.queue in
      let evs = go.sort_events goes_before (waiting s.contest.db) in
      let sent = sym (push_existing_rows-ok go s.contest quiet) ∙ pushed in
      let state : record (marked s.contest) { aborted = false } ≡ w = ap (λ x. x.1) sent in
      let listed : map event evs ≡ items =
        ap (λ x. elim x.0 [ ok is ↦ is | err e ↦ items | panic m ↦ items ]) sent in
      let named = λ (r : QueueRow) (p : WasSeen q r ⊎ Waits q r).
        sent_for go law s.contest.db items r listed p in
      consume-Left (WasSeen q) handler polite items (record s { contest = w }) s'
        (sym (ap (λ x. x.schedule) state) ∙ quiet) consumed
        (subst (All (λ r. WasSeen q r ⊎ (any (names r) items ≡ true))) (ap (λ x. x.db.queue) state)
          (All-mono _ _ (map mark q) named (each_row q)))
