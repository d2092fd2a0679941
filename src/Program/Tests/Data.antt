-- ===== src/Program/Tests/Data.antt =====
-- A router that compares paths, bodies of one byte, and requests.
use oiaj.Base.{
  ◌≡◌, sym, ap, inl, inr, Bool-cases, arith, ◌&&◌, ◌||◌, Bool, true, false, none, some, Option,
  List, [], ◌∷◌, if◌then◌else◌,
}
use mathlib.Core.List.{Memᴰ}
use mathlib.Core.Option.{some-injective}
use oiaj.Base.Int.{ℤ, pos}
use oiaj.Text.Bytes.{Bytes, codes, bytes_eq}
use oiaj.Judge.Api.{MakeSubmissionQuery, CreateUserQuery}
use oiaj.Judge.Routes.{Method, get, post, options, Route, Vars, Router, IsRouter, Incoming, Wire}

abbrev same_method : Method → Method → Bool
same_method get get = true
same_method post post = true
same_method options options = true
same_method _ _ = false

-- The preflight route takes every path.
abbrev matches : Bytes → Bytes → Bool
matches template path = bytes_eq template path || bytes_eq template (codes "/{any:.*}")

abbrev no_vars : Vars
no_vars name = none

-- The first route that serves a request.
abbrev find_route : List Route → Method → Bytes → Option (Route × Vars)
find_route [] m path = none
find_route (t ∷ ts) m path =
    let later = find_route ts m path in
    if same_method t.method m && matches t.template path then some (t, no_vars) else later

abbrev pub router : Router
router = record { pick = find_route; refusal = λ m path. (404, codes "404 page not found") }

find_route-Mem :
    (ts : List Route) (m : Method) (path : Bytes) (t : Route) (vars : Vars)
    → find_route ts m path ≡ some (t, vars)
    → Memᴰ t ts
find_route-Mem [] m path t vars h = absurd (ground arith)
find_route-Mem (u ∷ ts) m path t vars h =
    elim (Bool-cases (same_method u.method m && matches u.template path)) [
      | inl serves ↦
          let found : some (u, no_vars) ≡ some (t, vars) = rw serves at h in
          Memᴰ.head (ap (λ x. x.0) (sym (some-injective (u, no_vars) (t, vars) found)))
      | inr skipped ↦ Memᴰ.tail (find_route-Mem ts m path t vars (rw skipped at h))
    ]

pub router-IsRouter : IsRouter router
router-IsRouter = record { among = find_route-Mem }

abbrev read_any : {Q : Type 0} → Q → Bytes → Option Q
read_any q [] = none
read_any q (c ∷ body) = some q

abbrev pub bea : CreateUserQuery
bea = record {
  username = codes "bea";
  password = codes "faro";
  school = [];
  email = codes "bea@oia.ar";
  name = codes "Bea";
}

abbrev pub program : MakeSubmissionQuery
program = record { task = pos 7; user = pos 1; sources = [] }

abbrev pub wire : Wire ℤ
wire = record {
  create_user = read_any bea;
  user_login = read_any (record { username = codes "ana"; password = codes "mate" });
  get_user = read_any (pos 1);
  get_submissions = read_any (pos 7, pos 1);
  get_submission = read_any (pos 42);
  make_submission = read_any program;
  get_tasks = read_any tt;
  get_single_task = read_any (pos 7);
  validate_token = read_any (pos 1);
  set_mock_time = read_any (pos 1000);
  unmock_time = read_any tt;
  user_fits = λ u. true;
  submissions_fit = λ s. true;
  submission_fits = λ s. true;
  tasks_fit = λ t. true;
  task_fits = λ t. true;
}

abbrev pub request_to : Bytes → Incoming
request_to path = record {
  method = post;
  path = path;
  authorization = codes "Bearer 3:B8g=";
  query = λ name. [];
  body = codes "{}";
}
