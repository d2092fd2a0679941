-- ===== src/Judge/Http/Bearer.antt =====
-- A session opens the guarded part of the API: `WithUserAuth` of oiajudge/pkg/oiajudge/sever.go after
-- `UserLogin` of oiajudge/pkg/oiajudge/api.go.
use oiaj.Base.{◌≡◌, ◌≢◌, refl, ap, ◌∙◌, false, some, [], ◌++◌, All}
use oiaj.Text.Bytes.{Bytes, codes}
use oiaj.Text.Base64.{AreBytes}
use oiaj.Bridge.{ObjectId}
use oiaj.Store.Errors.{ok}
use oiaj.Store.Action.{recover, throw, recover-ok}
use oiaj.Store.Session.Laws.{IsUp}
use oiaj.Store.Session.Finish.{with_local_tx-up}
use oiaj.Judge.Tables.{JudgeWorld}
use oiaj.Judge.Users.{check_user_token}
use oiaj.Judge.Users.Tokens.{Issued, Issued-check_user_token}
use oiaj.Judge.Server.{Config, Server}
use oiaj.Judge.Api.{UserLoginQuery, UserSession, user_login}
use oiaj.Judge.Api.Session.{user_login_sound}
use oiaj.Judge.Http.{bearer_token, unauthorized, check_bearer, authenticate}

bearer_token-append : (token : Bytes) → bearer_token (codes "Bearer " ++ token) ≡ some token
unfolding bearer_token
bearer_token-append token = refl

module _ {F B : Type 0} where
  -- Where PostgreSQL answers, a header that carries a token issued to a user passes the check.
  pub authenticate-Issued :
      (uid : ObjectId) (token : Bytes) (s : Server F B)
      → Issued uid token s.judge.db
      → s.judge.schedule ≡ []
      → authenticate uid (codes "Bearer " ++ token) s
        ≡ (ok tt, record s { judge = record s.judge { aborted = false } })
  unfolding authenticate check_bearer
  authenticate-Issued uid token s i quiet =
      let w : JudgeWorld F = record s.judge { aborted = false } in
      let up : IsUp w = record { answered = quiet; live = refl } in
      let checked = Issued-check_user_token uid token w i up in
      let closed =
        with_local_tx-up (recover (check_user_token uid token) (λ e. throw (unauthorized e)))
          s.judge w tt quiet
          (recover-ok (check_user_token uid token) w (λ e. throw (unauthorized e)) checked) up in
      ap (λ o. check_bearer uid o s) (bearer_token-append token)
      ∙ ap (λ x. (x.0, record s { judge = x.1 })) closed

  -- Where bcrypt accepts no password for an empty hash and the random source gives bytes, the token
  -- that a login returns passes the check for the session's user in the state that the login left,
  -- when PostgreSQL answers there.
  pub user_login-authenticate :
      (config : Config F B) (q : UserLoginQuery) (s s' : Server F B) (session : UserSession)
      → ((p : Bytes) → config.bcrypt.compare_hash [] p ≢ ok tt)
      → user_login config q s ≡ (ok session, s')
      → All AreBytes s.judge.secrets
      → s'.judge.schedule ≡ []
      → (authenticate session.user_id (codes "Bearer " ++ session.token) s').0 ≡ ok tt
  user_login-authenticate config q s s' session no_hash h bytes quiet =
      let (u, e, matches, owner, i) = user_login_sound config q s s' session no_hash h bytes in
      ap (λ x. x.0) (authenticate-Issued session.user_id session.token s' i quiet)
