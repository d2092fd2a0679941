-- ===== src/Program/Invariant.antt =====
-- Reachable states of the whole program (oiajudge/main.go).
use oiaj.Base.{◌≡◌, refl, ap, false, Option, none, arith}
use mathlib.Core.Path.{subst}
use oiaj.Base.Int.{ℤ}
use oiaj.Bridge.{Event}
use oiaj.Judge.Tables.{Db}
use oiaj.Judge.Users.Accounts.{IsSettled}
use oiaj.Judge.Updater.Balance.{IsExact}
use oiaj.Judge.Server.{Config, get_time, unmock_time}
use oiaj.Judge.Server.Keeping.{Holds, IsStable}
use oiaj.Judge.Events.{handle_event}
use oiaj.Judge.Events.Accounts.{handle_event-IsStable, handle_event-clock}
use oiaj.Judge.Routes.{Router, IsRouter, Incoming, Wire, routes}
use oiaj.Judge.Routes.Accounts.{IsClosed, IsSettled-IsClosed}
use oiaj.Judge.Routes.Debug.{Mocks, pick-IsDebug, make_server-IsStable}
use oiaj.Cms.Tables.{CmsWorld}
use oiaj.Cms.Platform.{Platform}
use oiaj.Cms.Channel.Keeping.{handle_item-IsStable}
use oiaj.Cms.System.{Relay, Step, push, round, restart, change}
use oiaj.Program.{Transition, relayed, answered, around, Reachable, started, after}

module _ {F : Type 0} (go : Platform F) (config : Config F (CmsWorld F)) (router : Router)
    (wire : Wire F) where
  -- Neither a request nor an event breaks what holds of the tables and of the instant that was set.
  module _ (P : Db F → Type 0) (M : Option ℤ → Type 0) (closed : IsClosed config P)
      (events : (ev : Event) → IsStable (Holds P M) (handle_event config ev))
      (debugging : (r : Incoming) → Mocks M (router.pick (routes config.debug) r.method r.path))
      (unset : M none) where
    abbrev Good : Relay F → Type 0
    Good r = Holds P M r.server

    Step-Good : {r t : Relay F} → Step go config r t → Good r → Good t
    unfolding unmock_time
    Step-Good (push s items w sent) h = h
    Step-Good (round s s' i items o done) h =
        subst (Holds P M) (ap (λ x. x.1) done)
          (handle_item-IsStable P M (handle_event config) events i s h)
    Step-Good (restart s items) h = (h.0, unset)
    Step-Good (change s items w) h = h

    Transition-Good : {r t : Relay F} → Transition go config router wire r t → Good r → Good t
    Transition-Good (relayed st) h = Step-Good st h
    Transition-Good (answered s s' items r o done) h =
        subst (Holds P M) (ap (λ x. x.1) done)
          (make_server-IsStable config router wire P M closed r (debugging r) s h)
    Transition-Good (around s items now schedule secrets) h = h

    Reachable-Good : {r t : Relay F} → Reachable go config router wire r t → Good r → Good t
    Reachable-Good started h = h
    Reachable-Good (after p st) h = Transition-Good st (Reachable-Good p h)

  -- Where the arithmetic is exact and the tables are settled at the start (each user's score is the
  -- sum of the user's task scores, of which there is at most one per user and task, and each task
  -- score is that of a user), they are settled in every state that requests to any path, with any
  -- body, header and outcome, events with their retries, restarts, changes of the contest system and
  -- failures of either database lead to.
  pub Reachable-IsSettled :
      (law : IsExact config.num) (r t : Relay F)
      → Reachable go config router wire r t
      → IsSettled config.num r.server.judge.db
      → IsSettled config.num t.server.judge.db
  Reachable-IsSettled law r t path h =
      let kept =
        Reachable-Good (IsSettled config.num) (λ o. Unit {0}) (IsSettled-IsClosed config)
          (handle_event-IsStable config law λ o. Unit {0}) (λ r t vars e mock o. tt) tt path
          (h, tt) in
      kept.0

  -- Where the router serves routes of its table only, the debug APIs are off and no instant is set at
  -- the start, `GetTime` is the clock in every
  -- state that requests, events, restarts and changes of the contest system lead to.
  pub Reachable-get_time :
      (r t : Relay F)
      → Reachable go config router wire r t
      → IsRouter router
      → config.debug ≡ false
      → r.server.mock_time ≡ none
      → get_time t.server ≡ t.server.clock
  unfolding get_time
  Reachable-get_time r t path known off unset =
      let closed : IsClosed config (λ d. Unit {0}) = record {
        admits = λ cooldown now uid w h. tt;
        registers = λ q id w h. tt;
        logs_in = λ q w h. tt;
      } in
      let kept =
        Reachable-Good (λ d. Unit {0}) (λ o. o ≡ none) closed
          (handle_event-clock config λ o. o ≡ none)
          (λ q t vars e mock instant.
            let on = pick-IsDebug router config.debug q.method q.path t vars known e mock in
            absurd (ground arith))
          refl path (tt, unset) in
      rw kept.1
