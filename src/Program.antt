-- ===== src/Program.antt =====
-- The whole program (oiajudge/main.go): the HTTP server that `RunServer` of
-- oiajudge/pkg/oiajudge/sever.go ends in, the two goroutines that bring it the events of the contest
-- system, and what happens around them.
pub mod Invariant
pub mod Start
mod Tests
use oiaj.Base.{◌≡◌, Option, List, [], ◌∷◌}
use oiaj.Base.Int.{ℤ}
use oiaj.Text.Bytes.{Bytes}
use oiaj.Store.Errors.{Outcome}
use oiaj.Store.Session.{Fault}
use oiaj.Judge.Server.{Config, Server}
use oiaj.Judge.Http.{Response}
use oiaj.Judge.Routes.{Router, Incoming, Wire, Payload, make_server}
use oiaj.Cms.Tables.{CmsWorld}
use oiaj.Cms.Platform.{Platform}
use oiaj.Cms.Channel.{Item}
use oiaj.Cms.System.{Relay, Step}

module _ {F : Type 0} (go : Platform F) (config : Config F (CmsWorld F)) (router : Router)
    (wire : Wire F) where
  -- One request is served at a time. net/http catches the panic of a handler, so that the server
  -- goes on whatever the outcome. `around` is the time that goes by, and what the connections to the
  -- judge's database and the random source will answer next.
  pub data Transition : Relay F → Relay F → Type 0 where
    relayed : {r t : Relay F} → Step go config r t → Transition r t
    answered :
        (s s' : Server F (CmsWorld F)) (items : List Item) (r : Incoming)
        (o : Outcome (Response (Payload F)))
        → make_server config router wire r s ≡ (o, s')
        → Transition
            (record { server = s; outbox = items })
            (record { server = s'; outbox = items })
    around :
        (s : Server F (CmsWorld F)) (items : List Item) (now : ℤ) (schedule : List (Option Fault))
        (secrets : List Bytes)
        → Transition
            (record { server = s; outbox = items })
            (record {
              server = record s {
                clock = now;
                judge = record s.judge { schedule = schedule; secrets = secrets };
              };
              outbox = items;
            })

  pub data Reachable (r : Relay F) : Relay F → Type 0 where
    started : Reachable r r
    after : {t u : Relay F} → Reachable r t → Transition t u → Reachable r u
