-- ===== src/Judge/Tests/Access.antt =====
-- Runs of the sessions, the guard of the requests and the cooldown.
use oiaj.Base.{◌≡◌, ◌≢◌, refl, inl, true, some, [], ◌++◌, ◌*◌, first, arith}
use oiaj.Base.Int.{ℤ, pos, negsuc, ◌+ℤ◌, ◌-ℤ◌, ◌<ℤ◌, eq_ℤ}
use oiaj.Text.Bytes.{Bytes, codes, bytes_eq, split}
use oiaj.Text.Decimal.{print_int, parse_int}
use oiaj.Text.Base64.{encode, decode}
use oiaj.Bridge.{ObjectId}
use oiaj.Store.Errors.{err, ok, oia_caused, plain, wait_before_retry, Outcome}
use oiaj.Store.Session.{read_random, query_row, exec, with_tx, with_local_tx}
use oiaj.Judge.Settings.{
  getenv_int_with_default, from_milliseconds, cooldown_setting, cooldown_setting-exact,
}
use oiaj.Judge.Tables.{UserRow, TokenRow, JudgeWorld}
use oiaj.Judge.Users.{
  Credential, read_token, print_token, is_token, create_user_token, check_user_token,
}
use oiaj.Judge.Users.Tokens.{Issued, create_user_token-check_user_token, check_user_token_sound}
use oiaj.Judge.Users.Clock.{unix_milli, from_milli}
use oiaj.Judge.Server.{Server, get_time}
use oiaj.Judge.Api.{
  MakeSubmissionQuery, UserLoginQuery, UserSession, can_user_submit, user_login, make_submission,
}
use oiaj.Judge.Api.Admission.{can_user_submit-admission}
use oiaj.Judge.Api.Cooldown.{stamp_of, can_user_submit-IsSpaced}
use oiaj.Judge.Api.Session.{user_login_sound}
use oiaj.Judge.Http.{json, Request, Response, with_user_auth, authenticate, bearer_token}
use oiaj.Judge.Http.Bearer.{user_login-authenticate}
use oiaj.Judge.Http.Auth.{Guarded, with_user_auth-guards}
use oiaj.Judge.Tests.Data.{world, config, server, plain_compare}

-- The fourth token of the table.
abbrev new_token : Bytes
new_token = codes "4:CQg="

abbrev issued : JudgeWorld ℤ
issued = (create_user_token (pos 1) world).1

create_user_token-check_user_token_example :
    check_user_token (pos 1) new_token issued ≡ (ok tt, issued)
unfolding create_user_token read_random query_row eq_ℤ print_token print_int encode
create_user_token-check_user_token_example =
    create_user_token-check_user_token (pos 1) new_token world issued refl (ground arith)
      (record { answered = refl; live = refl })

abbrev old_token : Bytes
old_token = codes "3:B8g="

check_user_token_sound_example :
    (c : Credential) × (t : TokenRow) × (read_token old_token ≡ some c)
    × (first (is_token c.token_id (pos 1)) world.db.tokens ≡ some t)
    × (t.id ≡ c.token_id)
    × (t.user_id ≡ pos 1)
    × (t.secret ≡ c.value)
    × (world.db ≡ world.db)
unfolding check_user_token query_row eq_ℤ read_token split parse_int decode bytes_eq
check_user_token_sound_example = check_user_token_sound (pos 1) old_token world world refl

abbrev login_query : UserLoginQuery
login_query = record { username = codes "ana"; password = codes "mate" }

abbrev session : UserSession
session = record { user_id = pos 1; token = new_token }

no_hash : (p : Bytes) → plain_compare [] p ≢ ok tt
no_hash p h = ground arith

user_login_sound_example :
    (u : UserRow ℤ) × (first (λ v. bytes_eq v.username login_query.username) world.db.users
      ≡ some u)
    × (plain_compare u.password_hash login_query.password ≡ ok tt)
    × (pos 1 ≡ u.id)
    × Issued (pos 1) new_token (user_login config login_query server).1.judge.db
unfolding user_login with_tx query_row read_random eq_ℤ bytes_eq print_token print_int encode
user_login_sound_example =
    user_login_sound config login_query server (user_login config login_query server).1 session
      no_hash refl (ground arith)

abbrev submit_query : MakeSubmissionQuery
submit_query = record { task = pos 7; user = pos 1; sources = [] }

abbrev after_first : Server ℤ Unit
after_first = (can_user_submit config submit_query server).1

-- The second request comes after two seconds.
abbrev later : Server ℤ Unit
later = record after_first { clock = pos 11000000000 }

can_user_submit-IsSpaced_example :
    get_time server +ℤ pos 1000000000 <ℤ get_time later +ℤ pos 1000000
unfolding can_user_submit with_tx query_row exec eq_ℤ get_time unix_milli from_milli ◌+ℤ◌ ◌-ℤ◌
can_user_submit-IsSpaced_example =
    can_user_submit-IsSpaced config submit_query submit_query server after_first later
      (can_user_submit config submit_query later).1 refl refl refl refl

abbrev request : Request MakeSubmissionQuery
request = record { body = some submit_query; authorization = codes "Bearer " ++ old_token }

abbrev answered : Outcome (Response ObjectId) × Server ℤ Unit
answered = with_user_auth (λ q. q.user) (λ r. true) (make_submission config) request server

abbrev response : Response ObjectId
response = record { status = 200; body = json (pos 0) }

with_user_auth-guards_example :
    Guarded (λ q. q.user) (λ r. true) (make_submission config) request server response answered.1
unfolding with_user_auth with_local_tx make_submission check_user_token query_row exec eq_ℤ
    authenticate read_token split parse_int decode bytes_eq bearer_token with_tx get_time unix_milli
    from_milli ◌+ℤ◌ ◌-ℤ◌
with_user_auth-guards_example =
    with_user_auth-guards (λ q. q.user) (λ r. true) (make_submission config) request server
      answered.1 response refl

user_login-authenticate_example :
    (authenticate (pos 1) (codes "Bearer " ++ new_token) (user_login config login_query server).1).0
    ≡ ok tt
unfolding user_login with_tx query_row read_random eq_ℤ bytes_eq print_token print_int encode
user_login-authenticate_example =
    user_login-authenticate config login_query server (user_login config login_query server).1
      session no_hash refl (ground arith) refl

-- Half a second after the first request.
abbrev soon : Server ℤ Unit
soon = record after_first { clock = pos 9500000000 }

can_user_submit-admission_example : can_user_submit config submit_query soon ≡ (
  err (
      oia_caused 429
        (wait_before_retry (pos 500000000))
        (plain (wait_before_retry (pos 500000000)))),
  soon,
)
unfolding can_user_submit with_tx query_row exec eq_ℤ get_time unix_milli from_milli ◌+ℤ◌ ◌-ℤ◌
    stamp_of
can_user_submit-admission_example =
    can_user_submit-admission config submit_query soon (pos 9000) refl refl

-- An environment in which every name stands for the same number.
abbrev environment : Bytes → Bytes
environment name = codes "1500"

cooldown_setting-exact_example : cooldown_setting environment ≡ pos (1500 * 1000000)
unfolding getenv_int_with_default parse_int
cooldown_setting-exact_example = cooldown_setting-exact environment 1500 (inl refl) (omega arith)

-- One millisecond more than the largest cooldown is a negative one.
cooldown_overflow : from_milliseconds (pos 9223372036855) ≡ negsuc 9223372036854551615
unfolding from_milliseconds
cooldown_overflow = refl
