-- ===== src/Program/Tests/Runs.antt =====
-- A user registers, sends a program, and asks for another time.
use oiaj.Base.{ℕ, String, ◌≢◌, arith, ◌≡◌, ◌⊎◌, refl, false, some, [], ◌∷◌}
use oiaj.Base.Int.{ℤ, pos, eq_ℤ, ◌+ℤ◌, ◌-ℤ◌}
use oiaj.Text.Bytes.{Bytes, codes, bytes_eq, split}
use oiaj.Text.Decimal.{print_int, parse_int}
use oiaj.Text.Base64.{encode, decode}
use oiaj.Store.Errors.{ok, err, panic}
use oiaj.Store.Session.{exec, query_row, read_random, with_tx, with_local_tx}
use oiaj.Judge.Users.{print_token, read_token}
use oiaj.Judge.Users.Clock.{unix_milli, from_milli}
use oiaj.Judge.Http.{Response, bearer_token, authenticate}
use oiaj.Cms.Impl.{cms_bridge}
use oiaj.Judge.Users.Accounts.{IsSettled}
use oiaj.Judge.Server.{Server, get_time}
use oiaj.Judge.Routes.{Route, Payload, routes, Vars, Incoming, make_server}
use oiaj.Judge.Api.Calm.{IsTame}
use oiaj.Cms.Calm.{cms_bridge-IsTameBridge}
use oiaj.Store.Session.Calm.{Quiet}
use oiaj.Judge.Routes.Answers.{make_server-Answers}
use oiaj.Judge.Routes.Contest.{Reaches, make_server-Reaches}
use oiaj.Judge.Tests.Data.{num_ℤ, num_ℤ-IsExact, world, db, db-IsBalanced, plain_compare}
use oiaj.Cms.Tables.{CmsWorld}
use oiaj.Cms.System.{Relay}
use oiaj.Cms.Tests.Data.{go, schema, settings, bcrypt, joint, joint_config}
use oiaj.Program.{Transition, Reachable}
use oiaj.Program.Invariant.{Reachable-IsSettled, Reachable-get_time}
use oiaj.Program.Tests.Data.{router, router-IsRouter, wire, request_to}

abbrev served : Incoming → Server ℤ (CmsWorld ℤ) → Server ℤ (CmsWorld ℤ)
served r s = (make_server joint_config router wire r s).1

abbrev registering : Incoming
registering = request_to (codes "/user/create")

abbrev send : Incoming
send = request_to (codes "/submission/create")

abbrev set_clock : Incoming
set_clock = request_to (codes "/mock/time/set")

-- A second later, with two numbers to draw.
abbrev later : Server ℤ (CmsWorld ℤ)
later = record (joint) {
  clock = pos 10000000000;
  judge = record world { schedule = []; secrets = (9 ∷ 8 ∷ []) ∷ (6 ∷ 5 ∷ []) ∷ [] };
}

abbrev registered : Server ℤ (CmsWorld ℤ)
registered = served registering later

abbrev submitted : Server ℤ (CmsWorld ℤ)
submitted = served send registered

abbrev clocked : Server ℤ (CmsWorld ℤ)
clocked = served set_clock submitted

abbrev at_rest : Server ℤ (CmsWorld ℤ) → Relay ℤ
at_rest s = record { server = s; outbox = [] }

path : Reachable go joint_config router wire (at_rest joint) (at_rest clocked)
path =
    Reachable.after
      (Reachable.after
        (Reachable.after
          (Reachable.after Reachable.started
            (Transition.around joint [] (pos 10000000000) [] ((9 ∷ 8 ∷ []) ∷ (6 ∷ 5 ∷ []) ∷ [])))
          (Transition.answered later registered [] registering _ refl))
        (Transition.answered registered submitted [] send _ refl))
      (Transition.answered submitted clocked [] set_clock _ refl)

db-IsSettled : IsSettled num_ℤ db
unfolding eq_ℤ
db-IsSettled = record { balanced = db-IsBalanced; owned = (refl, tt) }

Reachable-IsSettled_example : IsSettled num_ℤ clocked.judge.db
Reachable-IsSettled_example =
    Reachable-IsSettled go joint_config router wire num_ℤ-IsExact (at_rest joint) (at_rest clocked)
      path db-IsSettled

Reachable-get_time_example : get_time clocked ≡ clocked.clock
Reachable-get_time_example =
    Reachable-get_time go joint_config router wire (at_rest joint) (at_rest clocked) path
      router-IsRouter refl refl

make_server-Reaches_example :
    ((served send joint).contest ≡ joint.contest)
    ⊎ ((t : Route) × (vars : Vars) × (router.pick (routes false) send.method send.path
          ≡ some (t, vars))
        × Reaches joint_config wire send joint t.endpoint)
make_server-Reaches_example = make_server-Reaches joint_config router wire send joint

plain_compare_calm : (hash p : Bytes) (m : String) → plain_compare hash p ≢ panic m
plain_compare_calm [] p m h = ground arith
plain_compare_calm (c ∷ hash) p m h = ground arith

bcrypt-IsTame : IsTame bcrypt
bcrypt-IsTame = record { generates = λ salt p m h. ground arith; compares = plain_compare_calm }

-- Over the bridge to the contest system's database.
make_server-Answers_example :
    (resp : Response (Payload ℤ)) × (s' : Server ℤ (CmsWorld ℤ)) × (make_server joint_config router
        wire send joint
      ≡ (ok resp, s'))
make_server-Answers_example =
    make_server-Answers joint_config router wire Quiet send joint bcrypt-IsTame
      (cms_bridge-IsTameBridge schema go settings) refl refl

abbrev status : Incoming → Server ℤ (CmsWorld ℤ) → ℕ
status r s = elim (make_server joint_config router wire r s).0 [
  | ok resp ↦ resp.status
  | err e ↦ 0
  | panic m ↦ 0
]

-- Both requests are answered; without the debug APIs the third has no route.
registered_status : status registering later ≡ 200
unfolding make_server bytes_eq exec query_row read_random with_tx eq_ℤ cms_bridge
    oiaj.Cms.Users.create_user print_token print_int encode oiaj.Judge.Http.no_auth
    oiaj.Judge.Api.create_user_api
registered_status = refl

submitted_status : status send joint ≡ 200
unfolding make_server bytes_eq exec query_row read_random with_tx with_local_tx eq_ℤ cms_bridge
    bearer_token authenticate read_token split parse_int decode get_time unix_milli from_milli ◌+ℤ◌
    ◌-ℤ◌ oiaj.Judge.Http.with_user_auth oiaj.Judge.Api.make_submission
    oiaj.Cms.Objects.make_submission
submitted_status = refl

clocked_status : status set_clock joint ≡ 404
unfolding make_server bytes_eq
clocked_status = refl
