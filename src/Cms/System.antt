-- ===== src/Cms/System.antt =====
-- The judge and the bridge as they run together (oiajudge/main.go): the goroutine that sends what
-- the queue holds, the goroutine of `HandleEvents`, one round of each at a time, and the contest
-- system, which may change its database at any moment.
use oiaj.Base.{◌≡◌, ap, List, [], ◌∷◌}
use mathlib.Core.Path.{subst}
use oiaj.Store.Errors.{Outcome, ok}
use oiaj.Judge.Server.{Config, Server, unmock_time}
use oiaj.Judge.Updater.Balance.{IsExact, IsBalanced}
use oiaj.Judge.Events.{handle_event}
use oiaj.Judge.Events.Balance.{handle_event-IsBalanced}
use oiaj.Cms.Tables.{CmsWorld}
use oiaj.Cms.Platform.{Platform}
use oiaj.Cms.Channel.Keeping.{handle_item-IsStable}
use oiaj.Cms.Channel.{Item, push_existing_rows, handle_item}

-- The server, and what waits in the channel.
pub record Relay (F : Type 0) : Type 0 where
  pub server : Server F (CmsWorld F)
  pub outbox : List Item

module _ {F : Type 0} (go : Platform F) (config : Config F (CmsWorld F)) where
  -- `push` is a notification, or the start of the program; the sender waits until the channel is
  -- empty. A round may panic, which ends the program. `restart` forgets
  -- the channel and the instant that was set.
  pub data Step : Relay F → Relay F → Type 0 where
    push :
        (s : Server F (CmsWorld F)) (items : List Item) (w : CmsWorld F)
        → push_existing_rows go s.contest ≡ (ok items, w)
        → Step
            (record { server = s; outbox = [] })
            (record { server = record s { contest = w }; outbox = items })
    round :
        (s s' : Server F (CmsWorld F)) (i : Item) (items : List Item) (o : Outcome Unit)
        → handle_item (handle_event config) i s ≡ (o, s')
        → Step (record { server = s; outbox = i ∷ items }) (record { server = s'; outbox = items })
    restart :
        (s : Server F (CmsWorld F)) (items : List Item)
        → Step
            (record { server = s; outbox = items })
            (record { server = unmock_time s; outbox = [] })
    change :
        (s : Server F (CmsWorld F)) (items : List Item) (w : CmsWorld F)
        → Step
            (record { server = s; outbox = items })
            (record { server = record s { contest = w }; outbox = items })

  pub data Reach (r : Relay F) : Relay F → Type 0 where
    here : Reach r r
    next : {t u : Relay F} → Reach r t → Step t u → Reach r u

  module _ (law : IsExact config.num) where
    abbrev Balanced : Server F (CmsWorld F) → Type 0
    Balanced s = IsBalanced config.num s.judge.db

    handle_item-IsBalanced :
        (i : Item) (s : Server F (CmsWorld F))
        → Balanced s
        → Balanced (handle_item (handle_event config) i s).1
    handle_item-IsBalanced i s h =
        let kept =
          handle_item-IsStable (IsBalanced config.num) (λ o. Unit {0}) (handle_event config)
            (λ ev s p. (handle_event-IsBalanced config law ev s p.0, tt)) i s (h, tt) in
        kept.0

    Step-IsBalanced : {r t : Relay F} → Step r t → Balanced r.server → Balanced t.server
    unfolding unmock_time
    Step-IsBalanced (push s items w sent) h = h
    Step-IsBalanced (round s s' i items o done) h =
        subst Balanced (ap (λ x. x.1) done) (handle_item-IsBalanced i s h)
    Step-IsBalanced (restart s items) h = h
    Step-IsBalanced (change s items w) h = h

    -- Where the arithmetic is exact and the judge's tables are balanced at the start, they are
    -- balanced in every state that notifications, rounds with their retries, restarts and changes of
    -- the contest system lead to, whatever fails and also when a round panics.
    pub Reach-IsBalanced :
        (r t : Relay F)
        → Reach r t
        → IsBalanced config.num r.server.judge.db
        → IsBalanced config.num t.server.judge.db
    Reach-IsBalanced r t path h = reached path
      where
        reached : {t : Relay F} → Reach r t → Balanced t.server
        reached here = h
        reached (next p st) = Step-IsBalanced st (reached p)
