-- ===== src/Judge/Http/Auth.antt =====
-- What `WithUserAuth` of oiajudge/pkg/oiajudge/sever.go lets through.
use oiaj.Base.{
  ℕ, ◌≡◌, ◌≢◌, refl, sym, ap, ◌∙◌, ◌⊎◌, inl, inr, Bool, Option, none, some, arith, first,
  Option-cases,
}
use oiaj.Text.Bytes.{Bytes}
use oiaj.Bridge.{ObjectId}
use oiaj.Store.Errors.{Error, database, Outcome, Outcome-cases, ok, err, panic}
use oiaj.Store.Action.{throw, recover, recover-inv}
use oiaj.Store.Session.{query_row}
use oiaj.Store.Session.Atomic.{
  started, with_local_tx-all_or_nothing, with_local_tx-ok, with_local_tx-err,
}
use oiaj.Judge.Tables.{TokenRow, Db, JudgeTx, JudgeWorld}
use oiaj.Judge.Users.{Credential, read_token, is_token, check_user_token}
use oiaj.Judge.Users.Tokens.{check_user_token_sound}
use oiaj.Judge.Server.{Server, Api}
use oiaj.Judge.Http.{
  Request, Response, process_error, bearer_token, bad_json, unauthorized, check_bearer,
  authenticate, with_user_auth,
}

-- No error that the check throws is answered with 200.
unauthorized_status :
    (R : Type 0) (e y : Error) → e ≡ unauthorized y → (process_error {R = R} e).status ≢ 200
unfolding process_error
unauthorized_status R e y h k = ground arith

database_status :
    (R : Type 0) (e : Error) (c : ℕ) → e ≡ database c → (process_error {R = R} e).status ≢ 200
unfolding process_error
database_status R e c h k = ground arith

bad_json_status : (R : Type 0) → (process_error {R = R} bad_json).status ≢ 200
unfolding process_error
bad_json_status R k = ground arith

module _ {F : Type 0} where
  -- The header shows the id and the secret of a token of the user.
  pub record Authorized (uid : ObjectId) (header : Bytes) (d : Db F) : Type 0 where
    pub token : Bytes
    pub sent : bearer_token header ≡ some token
    pub credential : Credential
    pub well_formed : read_token token ≡ some credential
    pub row : TokenRow
    pub found : first (is_token credential.token_id uid) d.tokens ≡ some row
    pub owner : row.user_id ≡ uid
    pub secret : row.secret ≡ credential.value

  abbrev guarded : ObjectId → Bytes → JudgeTx F Unit
  guarded uid token = recover (check_user_token uid token) (λ e. throw (unauthorized e))

  check_user_token-db :
      (uid : ObjectId) (token : Bytes) (w : JudgeWorld F)
      → (check_user_token uid token w).1.db ≡ w.db
  unfolding check_user_token query_row
  check_user_token-db uid token w = ground arith

  guarded-db :
      (uid : ObjectId) (token : Bytes) (w : JudgeWorld F) → (guarded uid token w).1.db ≡ w.db
  guarded-db uid token w = ground (arith, check_user_token-db uid token w)

  thrown :
      (x : Outcome Unit × JudgeWorld F) (e : Error)
      → (recover (λ w. x) (λ y. throw (unauthorized y)) x.1).0 ≡ err e
      → (y : Error) × (e ≡ unauthorized y)
  thrown (ok u, w) e h = absurd (ground arith)
  thrown (err y, w) e h = (y, ground arith)
  thrown (panic m, w) e h = absurd (ground arith)

module _ {F B : Type 0} where
  check_bearer-none : (uid : ObjectId) (s s' : Server F B) → check_bearer uid none s ≢ (ok tt, s')
  unfolding check_bearer
  check_bearer-none uid s s' h = ground arith

  -- A request that is accepted carries a token of the user.
  check_bearer-inv :
      (uid : ObjectId) (header token : Bytes) (s s' : Server F B)
      → bearer_token header ≡ some token
      → check_bearer uid (some token) s ≡ (ok tt, s')
      → Authorized uid header s.judge.db
  unfolding check_bearer
  check_bearer-inv uid header token s s' sent h =
      let done : (guarded uid token (started s.judge)).0 ≡ ok tt =
        with_local_tx-ok (guarded uid token) s.judge tt (ap (λ x. x.0) h) in
      elim (recover-inv (check_user_token uid token) (λ e. throw (unauthorized e)) (started s.judge)
        tt (guarded uid token (started s.judge)).1 (ground arith)) [
          | inl accepted ↦
              let (c, t, read, found, by_id, by_user, equal, same) =
                check_user_token_sound uid token (started s.judge)
                  (guarded uid token (started s.judge)).1 accepted in
              record {
                token = token;
                sent = sent;
                credential = c;
                well_formed = read;
                row = t;
                found = found;
                owner = by_user;
                secret = equal;
              }
          | inr (e, w1, refused, thrown) ↦ absurd (ground arith)
        ]

  pub authenticate_sound :
      (uid : ObjectId) (header : Bytes) (s s' : Server F B)
      → authenticate uid header s ≡ (ok tt, s')
      → Authorized uid header s.judge.db
  unfolding authenticate
  authenticate_sound uid header s s' h = elim (Option-cases (bearer_token header)) [
    | inl missing ↦ absurd (check_bearer-none uid s s' (rw missing at h))
    | inr (token, sent) ↦ check_bearer-inv uid header token s s' sent (rw sent at h)
  ]

  -- Whatever it answers, the check changes no table and does not reach the contest system.
  pub check_bearer-quiet :
      (uid : ObjectId) (o : Option Bytes) (s : Server F B)
      → ((check_bearer uid o s).1.judge.db ≡ s.judge.db)
        × ((check_bearer uid o s).1.contest ≡ s.contest)
  unfolding check_bearer
  check_bearer-quiet uid none s = (refl, refl)
  check_bearer-quiet uid (some token) s = (
    elim (with_local_tx-all_or_nothing (guarded uid token) s.judge) [
      | inl same ↦ same
      | inr (same, live) ↦ same ∙ guarded-db uid token (started s.judge)
    ],
    refl,
  )

  -- A refusal is never answered with 200.
  check_bearer-status :
      (R : Type 0) (uid : ObjectId) (o : Option Bytes) (s s' : Server F B) (e : Error)
      → check_bearer uid o s ≡ (err e, s')
      → (process_error {R = R} e).status ≢ 200
  unfolding check_bearer process_error
  check_bearer-status R uid none s s' e h k = ground arith
  check_bearer-status R uid (some token) s s' e h k =
      elim (with_local_tx-err (guarded uid token) s.judge e (ap (λ x. x.0) h)) [
        | inl in_body ↦
            let (y, same) = thrown (check_user_token uid token (started s.judge)) e in_body in
            unauthorized_status R e y same k
        | inr (c, same) ↦ database_status R e c same k
      ]

  authenticate-refused :
      (R : Type 0) (uid : ObjectId) (header : Bytes) (s s' : Server F B) (e : Error)
      → authenticate uid header s ≡ (err e, s')
      → ((process_error {R = R} e).status ≢ 200)
        × (s'.judge.db ≡ s.judge.db)
        × (s'.contest ≡ s.contest)
  unfolding authenticate
  authenticate-refused R uid header s s' e h =
      let (tables, contest) = check_bearer-quiet uid (bearer_token header) s in
      (
        check_bearer-status R uid (bearer_token header) s s' e h,
        ap (λ x. x.1.judge.db) (sym h) ∙ tables,
        ap (λ x. x.1.contest) (sym h) ∙ contest,
      )

module _ {F B Q R : Type 0} (uid : Q → ObjectId) (marshals : R → Bool) (f : Q → Api F B R) where
  -- How `WithUserAuth` ends: the request was authorized, or it is refused and nothing has changed.
  abbrev pub Guarded : Request Q → Server F B → Response R → Server F B → Type 0
  Guarded r s resp s' =
      ((q : Q) × (r.body ≡ some q) × Authorized (uid q) r.authorization s.judge.db)
      ⊎ ((resp.status ≢ 200) × (s'.judge.db ≡ s.judge.db) × (s'.contest ≡ s.contest))

  -- When a guarded handler answers, either the body was read and the header shows the id and the
  -- secret of a stored token of the body's user, or the answer is an error status and neither the
  -- judge's tables nor the contest system has changed.
  pub with_user_auth-guards :
      (r : Request Q) (s s' : Server F B) (resp : Response R)
      → with_user_auth uid marshals f r s ≡ (ok resp, s')
      → Guarded r s resp s'
  unfolding with_user_auth
  with_user_auth-guards r s s' resp h = elim (Option-cases r.body) [
    | inl bad ↦
        let answer : resp ≡ process_error bad_json = ground arith in
        inr (λ k. bad_json_status R (rw answer at k), ground arith, ground arith)
    | inr (q, e) ↦
        let s1 = (authenticate (uid q) r.authorization s).1 in
        elim (Outcome-cases (authenticate (uid q) r.authorization s).0) [
          | inl (u, passed) ↦
              let ran : authenticate (uid q) r.authorization s ≡ (ok tt, s1) = ground arith in
              inl (q, e, authenticate_sound (uid q) r.authorization s s1 ran)
          | inr (inl (x, failed)) ↦
              let ran : authenticate (uid q) r.authorization s ≡ (err x, s1) = ground arith in
              let answer : resp ≡ process_error x = ground arith in
              let after : s' ≡ s1 = ground arith in
              let (refusal, tables, contest) =
                authenticate-refused R (uid q) r.authorization s s1 x ran in
              inr (rw answer refusal, rw after tables, rw after contest)
          | inr (inr (m, stopped)) ↦ absurd (ground arith)
        ]
  ]
