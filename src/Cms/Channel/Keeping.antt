-- ===== src/Cms/Channel/Keeping.antt =====
-- What holds of the judge through a round of the goroutine of `HandleEvents`
-- (oiajudge/pkg/cmsbridge/impl.go), retries included.
use oiaj.Base.{ℕ, zero, suc, Option}
use oiaj.Base.Int.{ℤ}
use oiaj.Bridge.{Event}
use oiaj.Store.Action.{pure}
use oiaj.Store.Session.{with_tx}
use oiaj.Judge.Tables.{Db}
use oiaj.Judge.Server.{Api, on_contest}
use oiaj.Judge.Server.Keeping.{Holds, IsStable, >>=-IsStable, recover-IsStable, on_contest-IsStable}
use oiaj.Cms.Tables.{CmsWorld}
use oiaj.Cms.Queue.{delete_notification}
use oiaj.Cms.Channel.{Item, event, failure, retry, forget, handle_item}

module _ {F : Type 0} (P : Db F → Type 0) (M : Option ℤ → Type 0) where
  retry-IsStable :
      (rounds : ℕ) (m : Api F (CmsWorld F) Unit)
      → IsStable (Holds P M) m
      → IsStable (Holds P M) (retry rounds m)
  unfolding retry
  retry-IsStable zero m h s p = p
  retry-IsStable (suc rounds) m h s p =
      recover-IsStable (Holds P M) m (λ e. retry rounds m) h (λ e. retry-IsStable rounds m h) s p

  forget-IsStable : (ev : Event) → IsStable (Holds P M) (forget ev)
  unfolding forget
  forget-IsStable ev =
      recover-IsStable (Holds P M) (on_contest (with_tx (delete_notification ev.event_id)))
        (λ e. pure tt) (on_contest-IsStable P M (with_tx (delete_notification ev.event_id)))
        λ e s p. p

  -- Neither the retries nor the deletion add anything to what the handler does.
  pub handle_item-IsStable :
      (handler : Event → Api F (CmsWorld F) Unit)
      → ((ev : Event) → IsStable (Holds P M) (handler ev))
      → (i : Item) → IsStable (Holds P M) (handle_item handler i)
  unfolding handle_item
  handle_item-IsStable handler h (failure e) s p = p
  handle_item-IsStable handler h (event ev) s p =
      >>=-IsStable (Holds P M) (retry 10 (handler ev)) (λ _. forget ev)
        (retry-IsStable 10 (handler ev) (h ev)) (λ u. forget-IsStable ev) s p
