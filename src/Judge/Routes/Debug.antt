-- ===== src/Judge/Routes/Debug.antt =====
-- Requests that go through the table of routes of `MakeServer` (oiajudge/pkg/oiajudge/sever.go), with
-- and without the debug APIs.
use oiaj.Base.{◌≡◌, refl, sym, Bool, true, false, Option, none, some, List, [], ◌∷◌, All, arith}
use mathlib.Core.List.{Memᴰ}
use mathlib.Core.Path.{subst}
use oiaj.Base.Int.{ℤ}
use oiaj.Text.Bytes.{Bytes}
use oiaj.Judge.Tables.{Db}
use oiaj.Judge.Server.{Config}
use oiaj.Judge.Server.Keeping.{Holds, IsStable}
use oiaj.Judge.Routes.{
  Method, is_mock, Route, routes, debug_routes, Vars, Router, Incoming, Wire, IsRouter, serve_route,
  make_server,
}
use oiaj.Judge.Routes.Accounts.{IsClosed, serve-IsStable}

All-Mem : {A : Type 0} (Q : A → Type 0) (xs : List A) {x : A} → All Q xs → Memᴰ x xs → Q x
All-Mem Q [] h m = elim m [ ]
All-Mem Q (y ∷ xs) h (Memᴰ.head e) = subst Q (sym e) h.0
All-Mem Q (y ∷ xs) h (Memᴰ.tail m) = All-Mem Q xs h.1 m

every : {A : Type 0} {Q : A → Type 0} (xs : List A) → ((a : A) → Q a) → All Q xs
every [] h = tt
every (x ∷ xs) h = (h x, every xs h)

abbrev IsDebug : Bool → Route → Type 0
IsDebug debug t = is_mock t.endpoint ≡ true → debug ≡ true

-- Only the debug APIs change the instant that was set.
routes-IsDebug : (debug : Bool) → All (IsDebug debug) (routes debug)
unfolding routes debug_routes is_mock
routes-IsDebug true = every {Q = IsDebug true} (routes true) (λ t h. refl)
routes-IsDebug false = ground arith

-- A router that serves a debug API has been given it.
pub pick-IsDebug :
    (router : Router) (debug : Bool) (m : Method) (path : Bytes) (t : Route) (vars : Vars)
    → IsRouter router
    → router.pick (routes debug) m path ≡ some (t, vars)
    → is_mock t.endpoint ≡ true
    → debug ≡ true
pick-IsDebug router debug m path t vars known e =
    All-Mem (IsDebug debug) (routes debug) (routes-IsDebug debug)
      (known.among (routes debug) m path t vars e)

-- Where a debug API is served, every instant is meant.
abbrev pub Mocks : (Option ℤ → Type 0) → Option (Route × Vars) → Type 0
Mocks M o =
    (t : Route) (vars : Vars)
    → o ≡ some (t, vars)
    → is_mock t.endpoint ≡ true
    → (instant : Option ℤ) → M instant

module _ {F B : Type 0} (config : Config F B) (router : Router) (wire : Wire F) (P : Db F → Type 0)
    (M : Option ℤ → Type 0) (closed : IsClosed config P) where
  serve_route-IsStable :
      (o : Option (Route × Vars)) (r : Incoming)
      → Mocks M o
      → IsStable (Holds P M) (serve_route config router wire o r)
  unfolding serve_route
  serve_route-IsStable none r h s p = p
  serve_route-IsStable (some (t, vars)) r h s p =
      serve-IsStable config wire P M closed t.endpoint vars r (h t vars refl) s p

  -- What holds of the tables and of the instant that was set holds after a request; where a debug API
  -- is served, of every instant.
  pub make_server-IsStable :
      (r : Incoming)
      → Mocks M (router.pick (routes config.debug) r.method r.path)
      → IsStable (Holds P M) (make_server config router wire r)
  unfolding make_server
  make_server-IsStable r h =
      serve_route-IsStable (router.pick (routes config.debug) r.method r.path) r h
