-- ===== src/Judge/Users/Tokens.antt =====
-- A token that `CreateUserToken` issues is accepted by `CheckUserToken`, and only such tokens are.
use oiaj.Base.{
  ℕ, ◌+◌, ◌≡◌, refl, ap, ◌∙◌, true, false, some, List, [], ◌∷◌, ◌++◌, arith, any, first, All,
  first_sound, Bool-cases, Option-cases, List-cases, inl, inr,
}
use oiaj.Base.Int.{ℤ, pos, eq_ℤ, eq_ℤ_iff, eq_ℤ_refl}
use oiaj.Text.Bytes.{Bytes, bytes_eq, bytes_eq_refl, bytes_eq_sound, split-append, split-Lacks}
use oiaj.Text.Decimal.{print_int, InInt64, parse_int-print_int, print_int-Lacks}
use oiaj.Text.Base64.{encode, AreBytes, decode-encode, encode-Lacks}
use oiaj.Bridge.{ObjectId}
use oiaj.Store.Errors.{ok}
use oiaj.Store.Action.{pure, >>=-inv}
use oiaj.Store.Session.{pass, read_random}
use oiaj.Store.Session.Laws.{IsUp, query_row-some}
use oiaj.Store.Session.Inverse.{query_row-inv, select-inv}
use oiaj.Judge.Tables.{Db, TokenRow, JudgeWorld}
use oiaj.Judge.Users.{
  Credential, read_token, print_token, is_token, insert_token, create_user_token, draw_token,
  store_secret, fetch_secret, compare_secret, check_user_token, check_credential, select_secret,
}

-- Reading a printed token gives its two parts back, for an id in the range of int64 and a secret of
-- bytes.
pub read_token-print_token :
    (id : ℤ) (secret : Bytes)
    → InInt64 id
    → AreBytes secret
    → read_token (print_token id secret) ≡ some (record { token_id = id; value = secret })
unfolding read_token print_token
read_token-print_token id secret h k = rw (
  split-append b':' (print_int id) (encode secret) (print_int-Lacks b':' id refl refl),
  split-Lacks b':' (encode secret) (encode-Lacks secret k),
  parse_int-print_int id h,
  decode-encode secret k,
)

-- A row that is put behind rows of other ids is the one that its id finds.
fresh_first :
    (uid : ObjectId) (n : ℕ) (secret : Bytes) (rows : List TokenRow)
    → any (λ t. eq_ℤ t.id (pos n)) rows ≡ false
    → let row : TokenRow = record { id = pos n; user_id = uid; secret = secret } in
      first (is_token (pos n) uid) (rows ++ row ∷ []) ≡ some row
fresh_first uid n secret [] h = ground (arith, eq_ℤ_refl (pos n), eq_ℤ_refl uid)
fresh_first uid n secret (t ∷ rows) h = ground (arith, fresh_first uid n secret rows)

is_token-parts :
    (id uid : ObjectId) (t : TokenRow) → is_token id uid t ≡ true → (t.id ≡ id) × (t.user_id ≡ uid)
is_token-parts id uid t h = ground (arith, eq_ℤ_iff t.id id, eq_ℤ_iff t.user_id uid)

module _ {F : Type 0} where
  read_random-inv :
      (w w' : JudgeWorld F) (secret : Bytes)
      → read_random w ≡ (ok secret, w')
      → (rest : List Bytes) × (w.secrets ≡ secret ∷ rest) × (w' ≡ record w { secrets = rest })
  unfolding read_random
  read_random-inv w w' secret h = elim (List-cases w.secrets) [
    | inl empty ↦ absurd (ground arith)
    | inr (s, rest, e) ↦ (rest, ground arith, ground arith)
  ]

  insert_token-inv :
      (uid id : ObjectId) (secret : Bytes) (d d' : Db F) (s s' : ℕ)
      → insert_token uid secret d s ≡ (ok (some id), d', s')
      → InInt64 id
        × (first (is_token id uid) d'.tokens
            ≡ some (record { id = id; user_id = uid; secret = secret }))
  unfolding insert_token
  insert_token-inv uid id secret d d' s s' h =
      let fresh = λ (t : TokenRow). eq_ℤ t.id (pos (s + 1)) in
      let row : TokenRow = record { id = pos (s + 1); user_id = uid; secret = secret } in
      ground (arith, fresh_first uid (s + 1) secret d.tokens)

  -- A token of a user is printed from a row that its id finds.
  pub record Issued (uid : ObjectId) (token : Bytes) (d : Db F) : Type 0 where
    pub id : ObjectId
    pub secret : Bytes
    pub small : InInt64 id
    pub bytes : AreBytes secret
    pub printed : print_token id secret ≡ token
    pub found :
        first (is_token id uid) d.tokens ≡ some (record { id = id; user_id = uid; secret = secret })

  -- A token is accepted where its row is found.
  check_found :
      (uid id : ObjectId) (secret : Bytes) (w : JudgeWorld F)
      → InInt64 id
      → AreBytes secret
      → IsUp w
      → first (is_token id uid) w.db.tokens
        ≡ some (record { id = id; user_id = uid; secret = secret })
      → check_user_token uid (print_token id secret) w ≡ (ok tt, w)
  unfolding check_user_token
  check_found uid id secret w small bytes up found =
      rw (read_token-print_token id secret small bytes) (
        ground (
          arith,
          query_row-some w up "SELECT secret FROM oia_tokens WHERE id = $1 AND user_id = $2"
              (select_secret id uid) secret w.db w.sequences (rw found),
          bytes_eq_refl secret,
        ))

  draw_token-inv :
      (uid : ObjectId) (secret : Bytes) (w w' : JudgeWorld F) (id : ObjectId)
      → draw_token uid secret w ≡ (ok id, w')
      → (d : Db F) × (s : ℕ) × (insert_token uid secret w.db w.sequences ≡ (ok (some id), d, s))
        × (w' ≡ record (pass w) { db = d; sequences = s })
        × (w.aborted ≡ false)
  unfolding draw_token
  draw_token-inv uid secret w w' id h = query_row-inv w w' _ (insert_token uid secret) id h

  store_secret-Issued :
      (uid : ObjectId) (secret token : Bytes) (w w' : JudgeWorld F)
      → store_secret uid secret w ≡ (ok token, w')
      → AreBytes secret
      → Issued uid token w'.db
  unfolding store_secret
  store_secret-Issued uid secret token w w' h bytes =
      let (id, w1, drawn, e) =
        >>=-inv (draw_token uid secret) (λ i. pure (print_token i secret)) w h in
      let (d, s, inserted, e1, live) = draw_token-inv uid secret w w1 id drawn in
      let (small, found) = insert_token-inv uid id secret w.db d w.sequences s inserted in
      let there : w'.db ≡ d = ground arith in
      record {
        id = id;
        secret = secret;
        small = small;
        bytes = bytes;
        printed = ground arith;
        found = ap (λ x. first (is_token id uid) x.tokens) there ∙ found;
      }

  -- A token that `CreateUserToken` returns has been issued to the user.
  pub create_user_token-Issued :
      (uid : ObjectId) (token : Bytes) (w w' : JudgeWorld F)
      → create_user_token uid w ≡ (ok token, w')
      → All AreBytes w.secrets
      → Issued uid token w'.db
  unfolding create_user_token
  create_user_token-Issued uid token w w' h bytes =
      let (secret, w1, drawn, h1) = >>=-inv read_random (store_secret uid) w h in
      let (rest, had, e1) = read_random-inv w w1 secret drawn in
      store_secret-Issued uid secret token w1 w' h1 (rw had at bytes).0

  -- An issued token is accepted from its user.
  pub Issued-check_user_token :
      (uid : ObjectId) (token : Bytes) (w : JudgeWorld F)
      → Issued uid token w.db
      → IsUp w
      → check_user_token uid token w ≡ (ok tt, w)
  Issued-check_user_token uid token w i up =
      rw (← i.printed) (check_found uid i.id i.secret w i.small i.bytes up i.found)

  -- A token that was issued to a user is accepted from that user in the state that the issue left,
  -- where the random source gives bytes and PostgreSQL answers.
  pub create_user_token-check_user_token :
      (uid : ObjectId) (token : Bytes) (w w' : JudgeWorld F)
      → create_user_token uid w ≡ (ok token, w')
      → All AreBytes w.secrets
      → IsUp w'
      → check_user_token uid token w' ≡ (ok tt, w')
  create_user_token-check_user_token uid token w w' h bytes up =
      Issued-check_user_token uid token w' (create_user_token-Issued uid token w w' h bytes) up

  fetch_secret-inv :
      (uid : ObjectId) (c : Credential) (w w' : JudgeWorld F) (secret : Bytes)
      → fetch_secret uid c w ≡ (ok secret, w')
      → (t : TokenRow) × (first (is_token c.token_id uid) w.db.tokens ≡ some t)
        × (t.secret ≡ secret)
        × (w' ≡ pass w)
        × (w.aborted ≡ false)
  unfolding fetch_secret
  fetch_secret-inv uid c w w' secret h =
      select-inv w w' _ (λ t. t.secret) (λ d. first (is_token c.token_id uid) d.tokens) secret h

  compare_secret-inv :
      (c : Credential) (secret : Bytes) (w w' : JudgeWorld F)
      → compare_secret c secret w ≡ (ok tt, w')
      → (secret ≡ c.value) × (w ≡ w')
  unfolding compare_secret
  compare_secret-inv c secret w w' h = elim (Bool-cases (bytes_eq secret c.value)) [
    | inl equal ↦ (bytes_eq_sound secret c.value equal, ground arith)
    | inr other ↦ absurd (ground arith)
  ]

  check_credential-inv :
      (uid : ObjectId) (c : Credential) (w w' : JudgeWorld F)
      → check_credential uid (some c) w ≡ (ok tt, w')
      → (t : TokenRow) × (first (is_token c.token_id uid) w.db.tokens ≡ some t)
        × (t.secret ≡ c.value)
        × (w'.db ≡ w.db)
  unfolding check_credential
  check_credential-inv uid c w w' h =
      let (secret, w1, fetched, compared) = >>=-inv (fetch_secret uid c) (compare_secret c) w h in
      let (t, found, value, e, live) = fetch_secret-inv uid c w w1 secret fetched in
      let (equal, same) = compare_secret-inv c secret w1 w' compared in
      (t, found, value ∙ equal, ground arith)

  -- A token that is accepted from a user is well formed and shows the id and the secret of a stored
  -- token of that user, and the check changes no table.
  pub check_user_token_sound :
      (uid : ObjectId) (token : Bytes) (w w' : JudgeWorld F)
      → check_user_token uid token w ≡ (ok tt, w')
      → (c : Credential) × (t : TokenRow) × (read_token token ≡ some c)
        × (first (is_token c.token_id uid) w.db.tokens ≡ some t)
        × (t.id ≡ c.token_id)
        × (t.user_id ≡ uid)
        × (t.secret ≡ c.value)
        × (w'.db ≡ w.db)
  unfolding check_user_token
  check_user_token_sound uid token w w' h = elim (Option-cases (read_token token)) [
    | inl bad ↦ absurd (ground arith)
    | inr (c, e) ↦
        let (t, found, equal, same) = check_credential-inv uid c w w' (rw e at h) in
        let (by_id, by_user) =
          is_token-parts c.token_id uid t (first_sound _ w.db.tokens t found) in
        (c, t, e, found, by_id, by_user, equal, same)
  ]
