-- ===== src/Judge/Users.antt =====
-- Users and their tokens: the first half of oiajudge/pkg/oiajudge/store.go.
pub mod Clock
pub mod Tokens
pub mod Accounts
pub mod Calm
pub mod Keeping
use oiaj.Base.{
  ◌+◌, ◌^◌, Bool, false, ◌&&◌, ◌||◌, Option, none, some, List, [], ◌∷◌, ◌++◌, map, ltb,
  if◌then◌else◌, any, first, update,
}
use mathlib.Core.Option
use oiaj.Base.Int.{ℤ, pos, eq_ℤ}
use oiaj.Text.Bytes.{Bytes, bytes_eq, split}
use oiaj.Text.Decimal.{print_int, parse_int}
use oiaj.Text.Base64.{encode, decode}
use oiaj.Bridge.{ObjectId, Arith}
use oiaj.Store.Errors.{
  Error, unique_violation, foreign_key_violation, sequence_exhausted, oia, text, ok, err,
}
use oiaj.Store.Action.{◌>>=◌, ◌>>◌, pure, throw}
use oiaj.Store.Session.{exec, query_row, read_random}
use oiaj.Judge.Tables.{UserRow, TokenRow, JudgeTx, Sql, has_user}
use Clock.{unix_milli, from_milli}

-- The parts of a token, once they are read.
pub record Credential : Type 0 where
  pub token_id : ℤ
  pub value : Bytes

abbrev pub malformed_token : Error
malformed_token = oia 400 (text "malformed token")

abbrev pub invalid_credentials : Error
invalid_credentials = oia 403 (text "invalid credentials")

credential : Option ℤ → Option Bytes → Option Credential
credential (some id) (some value) = some (record { token_id = id; value = value })
credential _ _ = none

read_parts : List Bytes → Option Credential
unfolding credential
read_parts (token_id ∷ token_value ∷ []) = credential (parse_int token_id) (decode token_value)
read_parts _ = none

-- `<token_id>:<base64 of the secret>`
unfoldable pub read_token : Bytes → Option Credential
unfolding read_parts
read_token token = read_parts (split b':' token)

unfoldable pub print_token : ℤ → Bytes → Bytes
print_token id secret = print_int id ++ b':' ∷ encode secret

-- `type DbUser`
pub record DbUser (F : Type 0) : Type 0 where
  pub username : Bytes
  pub score : F

-- The rows that a WHERE clause names.
abbrev pub is_user : {F : Type 0} → ObjectId → UserRow F → Bool
is_user uid u = eq_ℤ u.id uid

abbrev pub is_token : ObjectId → ObjectId → TokenRow → Bool
is_token id uid t = eq_ℤ t.id id && eq_ℤ t.user_id uid

module _ {F : Type 0} where
  -- UNIQUE on `email` and on `username`, and the primary key.
  clashes : UserRow F → UserRow F → Bool
  clashes new u = eq_ℤ u.id new.id || bytes_eq u.email new.email || bytes_eq u.username new.username

  insert_user : UserRow F → Sql F Unit
  unfolding clashes
  insert_user new d s =
      if any (clashes new) d.users
      then (err unique_violation, d, s)
      else (ok tt, record d { users = d.users ++ new ∷ [] }, s)

  -- `CreateUser`
  unfoldable pub create_user : Arith F → Bytes → Bytes → ObjectId → Bytes → JudgeTx F ObjectId
  unfolding insert_user
  create_user num email username cms_user_id password_hash =
      exec "INSERT INTO oia_user(id, email, username, password_hash) VALUES ($1, $2, $3, $4)" (
        insert_user (record {
          id = cms_user_id;
          email = email;
          is_email_verified = false;
          username = username;
          password_hash = password_hash;
          score = num.zero;
          last_submission_ms = pos 0;
        }))
      >> pure cms_user_id

  -- `nextval` first, then the primary key, then the foreign key.
  insert_token : ObjectId → Bytes → Sql F (Option ObjectId)
  insert_token uid secret d s =
      if ltb (s + 1) (2 ^ 63)
      then (if any (λ t. eq_ℤ t.id (pos (s + 1))) d.tokens
          then (err unique_violation, d, s + 1)
          else if has_user uid d
          then (
            ok (some (pos (s + 1))),
            record d {
              tokens = d.tokens ++ record { id = pos (s + 1); user_id = uid; secret = secret } ∷ [];
            },
            s + 1,
          )
          else (err foreign_key_violation, d, s + 1))
      else (err sequence_exhausted, d, s)

  draw_token : ObjectId → Bytes → JudgeTx F ObjectId
  unfolding insert_token
  draw_token uid secret =
      query_row "INSERT INTO oia_tokens(user_id, secret) VALUES ($1, $2) RETURNING id"
        (insert_token uid secret)

  store_secret : ObjectId → Bytes → JudgeTx F Bytes
  unfolding draw_token
  store_secret uid secret = do id ← draw_token uid secret; pure (print_token id secret)

  -- `CreateUserToken`
  unfoldable pub create_user_token : ObjectId → JudgeTx F Bytes
  unfolding store_secret
  create_user_token uid = do secret ← read_random; store_secret uid secret

  -- `GetUserPasswordAndId`
  unfoldable pub get_user_password_and_id : Bytes → JudgeTx F (Bytes × ObjectId)
  get_user_password_and_id username =
      query_row "SELECT password_hash, id FROM oia_user WHERE username = $1" λ d s. (
        ok (
            Option.map (λ u. (u.password_hash, u.id))
              (first (λ u. bytes_eq u.username username) d.users)),
        d,
        s,
      )

  select_secret : ObjectId → ObjectId → Sql F (Option Bytes)
  select_secret id uid d s =
      (ok (Option.map (λ t. t.secret) (first (is_token id uid) d.tokens)), d, s)

  fetch_secret : ObjectId → Credential → JudgeTx F Bytes
  unfolding select_secret
  fetch_secret uid c =
      query_row "SELECT secret FROM oia_tokens WHERE id = $1 AND user_id = $2"
        (select_secret c.token_id uid)

  compare_secret : Credential → Bytes → JudgeTx F Unit
  compare_secret c secret = if bytes_eq secret c.value then pure tt else throw invalid_credentials

  check_credential : ObjectId → Option Credential → JudgeTx F Unit
  unfolding fetch_secret compare_secret
  check_credential uid none = throw malformed_token
  check_credential uid (some c) = do secret ← fetch_secret uid c; compare_secret c secret

  -- `CheckUserToken`
  unfoldable pub check_user_token : ObjectId → Bytes → JudgeTx F Unit
  unfolding check_credential
  check_user_token uid token = check_credential uid (read_token token)

  -- `GetUser`
  unfoldable pub get_user : ObjectId → JudgeTx F (DbUser F)
  get_user uid = query_row "SELECT username, score FROM oia_user WHERE id = $1" λ d s. (
    ok (
        Option.map (λ u. record { username = u.username; score = u.score })
          (first (is_user uid) d.users)),
    d,
    s,
  )

  unfoldable pub select_stamp : ObjectId → JudgeTx F ℤ
  select_stamp uid =
      query_row "SELECT last_submission_ms FROM oia_user WHERE id = $1"
        λ d s. (ok (Option.map (λ u. u.last_submission_ms) (first (is_user uid) d.users)), d, s)

  -- `LastUserSubmission`
  unfoldable pub last_user_submission : ObjectId → JudgeTx F ℤ
  unfolding select_stamp
  last_user_submission uid = do unixms ← select_stamp uid; pure (from_milli unixms)

  -- `SetUserSubmission`
  unfoldable pub set_user_submission : ObjectId → ℤ → JudgeTx F Unit
  set_user_submission uid t =
      exec "UPDATE oia_user SET last_submission_ms = $1 WHERE id = $2" λ d s. (
        ok tt,
        record d {
          users =
              update (is_user uid) (λ u. record u { last_submission_ms = unix_milli t }) d.users;
        },
        s,
      )
