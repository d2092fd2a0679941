-- ===== src/Cms/Channel.antt =====
-- From the queue to the judge: `push_existing_rows` of `GetNotificationChannel`
-- (oiajudge/pkg/cmsbridge/store.go), and the goroutine of `HandleEvents`
-- (oiajudge/pkg/cmsbridge/impl.go).
pub mod Retry
pub mod Push
pub mod Drain
pub mod Left
pub mod Keeping
use oiaj.Base.{ℕ, zero, suc, Bool, List, [], ◌∷◌, map, ltb}
use oiaj.Bridge.{Event, EventType, submission, task, unknown}
use oiaj.Store.Errors.{Error}
use oiaj.Store.Action.{Action, ◌>>=◌, ◌>>◌, pure, recover}
use oiaj.Store.Session.{with_tx}
use oiaj.Judge.Server.{Server, Api, on_contest}
use oiaj.Cms.Tables.{CmsTx, CmsWorld}
use oiaj.Cms.Platform.{Platform}
use oiaj.Cms.Queue.{get_notifications, delete_notification}

-- What goes through the channel: an event, or one that carries an error.
pub data Item : Type 0 where
  event : Event → Item
  failure : Error → Item

-- A key that `priority` does not have gives zero.
unfoldable pub priority : EventType → ℕ
priority task = 0
priority submission = 1
priority (unknown name) = 0

abbrev pub goes_before : Event → Event → Bool
goes_before a b = ltb (priority a.event_type) (priority b.event_type)

-- A loop of at most so many rounds that stops at the first success.
unfoldable pub retry : {W : Type 0} → ℕ → Action W Unit → Action W Unit
retry zero handler = pure tt
retry (suc rounds) handler = recover handler (λ e. retry rounds handler)

module _ {F : Type 0} (go : Platform F) where
  -- What one notification sends into the channel.
  unfoldable pub push_existing_rows : CmsTx F (List Item)
  unfolding get_notifications priority
  push_existing_rows =
      recover
        (do evs ← with_tx get_notifications; pure (map event (go.sort_events goes_before evs)))
        (λ e. pure (failure e ∷ []))

module _ {F : Type 0} where
  -- What follows the retries: no error of it is looked at.
  unfoldable pub forget : Event → Api F (CmsWorld F) Unit
  unfolding delete_notification
  forget ev = recover (on_contest (with_tx (delete_notification ev.event_id))) (λ e. pure tt)

module _ {F : Type 0} (handler : Event → Api F (CmsWorld F) Unit) where
  -- One round of the goroutine of `HandleEvents`.
  unfoldable pub handle_item : Item → Api F (CmsWorld F) Unit
  unfolding forget
  handle_item (failure e) = pure tt
  handle_item (event ev) = retry 10 (handler ev) >> forget ev

  -- The rounds for the items that wait in the channel.
  unfoldable pub consume : List Item → Api F (CmsWorld F) Unit
  unfolding handle_item
  consume [] = pure tt
  consume (i ∷ items) = handle_item i >> consume items
