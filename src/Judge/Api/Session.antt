-- ===== src/Judge/Api/Session.antt =====
-- Who gets a session, and what a session is good for: `CreateUser` and `UserLogin` of
-- oiajudge/pkg/oiajudge/api.go.
use oiaj.Base.{◌≡◌, ◌≢◌, refl, sym, ap, ◌∙◌, ◌⊎◌, inl, inr, some, [], arith, All, first}
use oiaj.Text.Bytes.{Bytes, bytes_eq}
use oiaj.Text.Base64.{AreBytes}
use oiaj.Bridge.{ObjectId}
use oiaj.Store.Errors.{Outcome, ok, err, panic}
use oiaj.Store.Action.{pure, recover, >>=-inv, recover-inv}
use oiaj.Store.Session.{pass}
use oiaj.Store.Session.Atomic.{started, with_tx-ok}
use oiaj.Store.Session.Inverse.{select-inv}
use oiaj.Judge.Tables.{UserRow, JudgeWorld}
use oiaj.Judge.Users.{create_user_token, get_user_password_and_id}
use oiaj.Judge.Users.Tokens.{Issued, create_user_token-Issued}
use oiaj.Judge.Server.{Bcrypt, Config, Server}
use oiaj.Judge.Api.{
  UserLoginQuery, UserSession, open_session, no_user, check_password, enter, login, user_login,
}

module _ {F : Type 0} where
  open_session-Issued :
      (uid : ObjectId) (w w' : JudgeWorld F) (s : UserSession)
      → open_session uid w ≡ (ok s, w')
      → All AreBytes w.secrets
      → (s.user_id ≡ uid) × Issued s.user_id s.token w'.db
  unfolding open_session
  open_session-Issued uid w w' s h bytes =
      let (token, w1, made, e) =
        >>=-inv (create_user_token uid) (λ t. pure (record { user_id = uid; token = t })) w h in
      let i = create_user_token-Issued uid token w w1 made bytes in
      let by_id : uid ≡ s.user_id = ground arith in
      let by_token : token ≡ s.token = ground arith in
      let by_db : w1.db ≡ w'.db = ground arith in (sym by_id, rw (← by_id, ← by_token, ← by_db) i)

  -- The password that is checked is that of the named user.
  find_user-inv :
      (name : Bytes) (w w' : JudgeWorld F) (hash : Bytes) (uid : ObjectId)
      → recover (get_user_password_and_id name) no_user w ≡ (ok (hash, uid), w')
      → ((u : UserRow F) × (first (λ v. bytes_eq v.username name) w.db.users ≡ some u)
          × (u.password_hash ≡ hash)
          × (u.id ≡ uid)
          × (w' ≡ pass w))
        ⊎ (hash ≡ [])
  unfolding get_user_password_and_id no_user
  find_user-inv name w w' hash uid h =
      elim (recover-inv (get_user_password_and_id name) no_user w (hash, uid) w' h) [
        | inl found ↦
            let (u, e, value, same, live) =
              select-inv w w' _ (λ v. (v.password_hash, v.id))
                (λ d. first (λ v. bytes_eq v.username name) d.users) (hash, uid) found in
            inl (u, e, ap (λ x. x.0) value, ap (λ x. x.1) value, same)
        | inr (e, w1, failed, handled) ↦ inr (ground arith)
      ]

  check_password-inv :
      (r : Outcome Unit) (w w' : JudgeWorld F)
      → check_password r w ≡ (ok tt, w')
      → (r ≡ ok tt) × (w ≡ w')
  unfolding check_password
  check_password-inv (ok u) w w' h = (refl, ground arith)
  check_password-inv (err e) w w' h = absurd (ground arith)
  check_password-inv (panic m) w w' h = absurd (ground arith)

  enter-matches :
      (bcrypt : Bcrypt) (password hash : Bytes) (uid : ObjectId) (w w' : JudgeWorld F)
      (s : UserSession)
      → enter bcrypt password (hash, uid) w ≡ (ok s, w')
      → bcrypt.compare_hash hash password ≡ ok tt
  unfolding enter
  enter-matches bcrypt password hash uid w w' s h =
      let (u, w1, checked, opened) =
        >>=-inv (check_password (bcrypt.compare_hash hash password)) (λ u. open_session uid) w h in
      (check_password-inv (bcrypt.compare_hash hash password) w w1 checked).0

  enter-inv :
      (bcrypt : Bcrypt) (password hash : Bytes) (uid : ObjectId) (w w' : JudgeWorld F)
      (s : UserSession)
      → enter bcrypt password (hash, uid) w ≡ (ok s, w')
      → All AreBytes w.secrets
      → (bcrypt.compare_hash hash password ≡ ok tt)
        × (s.user_id ≡ uid)
        × Issued s.user_id s.token w'.db
  unfolding enter
  enter-inv bcrypt password hash uid w w' s h bytes =
      let (u, w1, checked, opened) =
        >>=-inv (check_password (bcrypt.compare_hash hash password)) (λ u. open_session uid) w h in
      let (matches, same) = check_password-inv (bcrypt.compare_hash hash password) w w1 checked in
      let (owner, i) = open_session-Issued uid w1 w' s opened (rw (← same) bytes) in
      (matches, owner, i)

  login-inv :
      (bcrypt : Bcrypt) (q : UserLoginQuery) (w w' : JudgeWorld F) (s : UserSession)
      → ((p : Bytes) → bcrypt.compare_hash [] p ≢ ok tt)
      → login bcrypt q w ≡ (ok s, w')
      → All AreBytes w.secrets
      → (u : UserRow F) × (first (λ v. bytes_eq v.username q.username) w.db.users ≡ some u)
        × (bcrypt.compare_hash u.password_hash q.password ≡ ok tt)
        × (s.user_id ≡ u.id)
        × Issued s.user_id s.token w'.db
  unfolding login
  login-inv bcrypt q w w' s no_hash h bytes =
      let (found, w1, looked, entered) =
        >>=-inv (recover (get_user_password_and_id q.username) no_user) (enter bcrypt q.password) w
          h in
      elim (find_user-inv q.username w w1 found.0 found.1 looked) [
        | inl (u, e, hash, id, same) ↦
            let (matches, owner, i) =
              enter-inv bcrypt q.password found.0 found.1 w1 w' s entered (rw same bytes) in
            (u, e, rw hash matches, owner ∙ sym id, i)
        | inr no_row ↦
            let matches = enter-matches bcrypt q.password found.0 found.1 w1 w' s entered in
            absurd (
              no_hash q.password
                (ap (λ x. bcrypt.compare_hash x q.password) (sym no_row) ∙ matches))
      ]

module _ {F B : Type 0} (config : Config F B) where
  -- Where bcrypt accepts no password for an empty hash and the random source gives bytes, a login
  -- that succeeds has found the user of that name, its password matches the stored hash, the session
  -- is that user's, and its token is printed from a stored token of that user.
  pub user_login_sound :
      (q : UserLoginQuery) (s s' : Server F B) (session : UserSession)
      → ((p : Bytes) → config.bcrypt.compare_hash [] p ≢ ok tt)
      → user_login config q s ≡ (ok session, s')
      → All AreBytes s.judge.secrets
      → (u : UserRow F) × (first (λ v. bytes_eq v.username q.username) s.judge.db.users ≡ some u)
        × (config.bcrypt.compare_hash u.password_hash q.password ≡ ok tt)
        × (session.user_id ≡ u.id)
        × Issued session.user_id session.token s'.judge.db
  unfolding user_login
  user_login_sound q s s' session no_hash h bytes =
      let body = login config.bcrypt q in
      let (done, (same, live)) = with_tx-ok body s.judge session (ground arith) in
      let w = started s.judge in
      let reached : body w ≡ (ok session, (body w).1) = ap (λ r. (r, (body w).1)) done in
      let (u, e, matches, owner, i) =
        login-inv config.bcrypt q w (body w).1 session no_hash reached bytes in
      let kept : (body w).1.db ≡ s'.judge.db = sym same ∙ ap (λ x. x.1.judge.db) h in
      (u, e, matches, owner, rw (← kept) i)
