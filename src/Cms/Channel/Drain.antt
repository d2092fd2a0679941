-- ===== src/Cms/Channel/Drain.antt =====
-- A notification and the rounds that follow it: what is left in the queue.
use oiaj.Base.{
  ℕ, zero, suc, ◌≡◌, refl, sym, ap, ◌∙◌, ◌⊎◌, inl, inr, Bool, true, false, List, [], ◌∷◌, arith,
  All, any, reject, Bool-cases,
}
use mathlib.Core.Path.{subst}
use oiaj.Base.Int.{eq_ℤ}
use oiaj.Bridge.{ObjectId, Event}
use oiaj.Store.Errors.{ok}
use oiaj.Store.Action.{pure, >>=-inv, recover-ok, recover-state}
use oiaj.Store.Session.{with_tx}
use oiaj.Store.Session.Laws.{IsUp, exec-ok}
use oiaj.Store.Session.Finish.{with_tx-up}
use oiaj.Judge.Server.{Server, Api, on_contest}
use oiaj.Cms.Tables.{QueueRow, CmsWorld}
use oiaj.Cms.Queue.{is_event, delete_notification}
use oiaj.Cms.Channel.{Item, event, failure, retry, forget, handle_item, consume}

-- The handler leaves the queue alone, and no failure of the contest system's database is to come.
pub record Keeps {F : Type 0} (s : Server F (CmsWorld F)) (s' : Server F (CmsWorld F))
    : Type 0 where
  pub queue : s'.contest.db.queue ≡ s.contest.db.queue
  pub quiet : s'.contest.schedule ≡ []

abbrev pub IsPolite : {F : Type 0} → (Event → Api F (CmsWorld F) Unit) → Type 0
IsPolite {F} handler =
    (ev : Event) (s : Server F (CmsWorld F)) → s.contest.schedule ≡ [] → Keeps s (handler ev s).1

-- The event of an item is that of a row.
abbrev pub names : QueueRow → Item → Bool
names r (event ev) = eq_ℤ r.id ev.event_id
names r (failure e) = false

module _ {F : Type 0} where
  delete_notification-ok :
      (id : ObjectId) (w : CmsWorld F)
      → IsUp w
      → delete_notification id w
        ≡ (ok tt, record w { db = record w.db { queue = reject (is_event id) w.db.queue } })
  unfolding delete_notification
  delete_notification-ok id w up = exec-ok w up _ _ _ w.sequences refl

  -- The server after the row of an event is deleted.
  abbrev pub forgotten : Event → Server F (CmsWorld F) → Server F (CmsWorld F)
  forgotten ev s = record s {
    contest = record s.contest {
      db = record s.contest.db { queue = reject (is_event ev.event_id) s.contest.db.queue };
      aborted = false;
    };
  }

  -- Where no failure is to come, the row is deleted.
  pub forget-ok :
      (ev : Event) (s : Server F (CmsWorld F))
      → s.contest.schedule ≡ []
      → forget ev s ≡ (ok tt, forgotten ev s)
  unfolding forget
  forget-ok ev s quiet =
      let w0 : CmsWorld F = record s.contest { aborted = false } in
      let done =
        with_tx-up (delete_notification ev.event_id) s.contest _ tt quiet
          (delete_notification-ok ev.event_id w0 (record { answered = quiet; live = refl }))
          (record { answered = quiet; live = refl }) in
      recover-ok (on_contest (with_tx (delete_notification ev.event_id))) s (λ e. pure tt)
        (ap (λ x. (x.0, record s { contest = x.1 })) done)

module _ {F : Type 0} (handler : Event → Api F (CmsWorld F) Unit) (polite : IsPolite handler) where
  Keeps-trans : {s s1 s2 : Server F (CmsWorld F)} → Keeps s s1 → Keeps s1 s2 → Keeps s s2
  Keeps-trans h k = record { queue = k.queue ∙ h.queue; quiet = k.quiet }

  retry-Keeps :
      (rounds : ℕ) (ev : Event) (s : Server F (CmsWorld F))
      → s.contest.schedule ≡ []
      → Keeps s (retry rounds (handler ev) s).1
  unfolding retry
  retry-Keeps zero ev s quiet = record { queue = refl; quiet = quiet }
  retry-Keeps (suc rounds) ev s quiet =
      let once = polite ev s quiet in
      recover-state (Keeps s) (handler ev) (λ e. retry rounds (handler ev)) s once
        λ e. Keeps-trans once (retry-Keeps rounds ev (handler ev s).1 once.quiet)

  -- A round that does not panic deletes the row of its event and nothing else of the queue.
  handle_item-event :
      (ev : Event) (s s' : Server F (CmsWorld F))
      → s.contest.schedule ≡ []
      → handle_item handler (event ev) s ≡ (ok tt, s')
      → (s'.contest.db.queue ≡ reject (is_event ev.event_id) s.contest.db.queue)
        × (s'.contest.schedule ≡ [])
  unfolding handle_item
  handle_item-event ev s s' quiet h =
      let (u, s0, tried, gone) = >>=-inv (retry 10 (handler ev)) (λ _. forget ev) s h in
      let k : Keeps s s0 = subst (Keeps s) (ap (λ x. x.1) tried) (retry-Keeps 10 ev s quiet) in
      let same : s' ≡ forgotten ev s0 = ap (λ x. x.1) (sym gone ∙ forget-ok ev s0 k.quiet) in
      (
        ap (λ x. x.contest.db.queue) same ∙ ap (reject (is_event ev.event_id)) k.queue,
        ap (λ x. x.contest.schedule) same ∙ k.quiet,
      )

module _ (P : QueueRow → Type 0) where
  rows_done : (q : List QueueRow) → All (λ r. P r ⊎ (false ≡ true)) q → All P q
  rows_done [] h = tt
  rows_done (r ∷ q) (inl p, h) = (p, rows_done q h)
  rows_done (r ∷ q) (inr e, h) = absurd (ground arith)

  rows_left :
      (ev : Event) (items : List Item) (q : List QueueRow)
      → All (λ r. P r ⊎ (any (names r) (event ev ∷ items) ≡ true)) q
      → All (λ r. P r ⊎ (any (names r) items ≡ true)) (reject (is_event ev.event_id) q)
  rows_left ev items [] h = tt
  rows_left ev items (r ∷ q) (p, h) = elim (Bool-cases (is_event ev.event_id r)) [
    | inl hit ↦ rw hit (rows_left ev items q h)
    | inr miss ↦
        rw miss (elim p [ inl e ↦ inl e | inr e ↦ inr (ground arith) ], rows_left ev items q h)
  ]

  module _ {F : Type 0} (handler : Event → Api F (CmsWorld F) Unit)
      (polite : IsPolite handler) where
    -- What holds of a row, or awaits an item that names it, holds of the rows that are left.
    pub consume-Left :
        (items : List Item) (s s' : Server F (CmsWorld F))
        → s.contest.schedule ≡ []
        → consume handler items s ≡ (ok tt, s')
        → All (λ r. P r ⊎ (any (names r) items ≡ true)) s.contest.db.queue
        → All P s'.contest.db.queue
    unfolding consume handle_item
    consume-Left [] s s' quiet h rows =
        subst (λ x. All P x.contest.db.queue) (ap (λ x. x.1) h) (rows_done s.contest.db.queue rows)
    consume-Left (failure e ∷ items) s s' quiet h rows = consume-Left items s s' quiet h rows
    consume-Left (event ev ∷ items) s s' quiet h rows =
        let (u, s1, one, rest) =
          >>=-inv (handle_item handler (event ev)) (λ _. consume handler items) s h in
        let (left, quiet1) = handle_item-event handler polite ev s s1 quiet one in
        consume-Left items s1 s' quiet1 rest (
          subst (All (λ r. P r ⊎ (any (names r) items ≡ true))) (sym left)
            (rows_left ev items s.contest.db.queue rows))
