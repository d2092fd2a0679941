-- ===== src/Judge/Http/Keeping.antt =====
-- What holds through the handlers of oiajudge/pkg/oiajudge/sever.go.
use oiaj.Base.{inl, inr, Bool, true, false, Option, none, some, [], Bool-cases, if◌then◌else◌}
use oiaj.Base.Int.{ℤ}
use oiaj.Text.Bytes.{Bytes, bytes_eq}
use oiaj.Text.Decimal.{parse_int}
use oiaj.Bridge.{ObjectId}
use oiaj.Store.Errors.{json_unsupported_value, Outcome, ok, err, panic}
use oiaj.Store.Action.{◌>>=◌, pure, throw, recover}
use oiaj.Store.Session.{with_tx, with_local_tx}
use oiaj.Store.Session.Keeping.{
  recover-IsKeeping, query_row-IsKeeping, with_tx-IsKeeping, with_local_tx-IsKeeping,
}
use oiaj.Judge.Tables.{Db}
use oiaj.Judge.Users.{check_user_token}
use oiaj.Judge.Users.Keeping.{check_user_token-IsKeeping}
use oiaj.Judge.Tasks
use oiaj.Judge.Server.{Config, Server, Api}
use oiaj.Judge.Server.Keeping.{
  Holds, IsStable, >>=-IsStable, recover-IsStable, on_judge-IsStable, on_contest-IsStable,
}
use oiaj.Judge.Api.{get_task_statement, get_attachment}
use oiaj.Judge.Http.{
  Request, Body, Response, unauthorized, respond_error, body_of, outer, no_auth, check_bearer,
  authenticate, bearer_token, with_user_auth, bad_request, statement_of, serve_statement,
  attachment_of, serve_attachment,
}

module _ {F B : Type 0} (G : Server F B → Type 0) where
  abbrev Stable : {A : Type 0} → Api F B A → Type 0
  Stable m = IsStable G m

  body_of-IsStable : {Q : Type 0} (o : Option Q) → Stable (body_of o)
  unfolding body_of
  body_of-IsStable none s p = p
  body_of-IsStable (some q) s p = p

  respond_error-IsStable :
      {R : Type 0} (x : Outcome (Response R) × Server F B) → G x.1 → G (respond_error x).1
  unfolding respond_error
  respond_error-IsStable (ok r, s) p = p
  respond_error-IsStable (err e, s) p = p
  respond_error-IsStable (panic m, s) p = p

  encode-IsStable :
      {R : Type 0} (b : Bool) (r : Response R)
      → Stable (if b then pure r else throw json_unsupported_value)
  encode-IsStable true r s p = p
  encode-IsStable false r s p = p

  pub outer-IsStable :
      {Q R : Type 0} (marshals : R → Bool) (auth : Q → Bytes → Api F B Unit) (f : Q → Api F B R)
      (r : Request Q)
      → ((q : Q) (header : Bytes) → Stable (auth q header))
      → ((q : Q) → Stable (f q))
      → Stable (outer marshals auth f r)
  unfolding outer
  outer-IsStable marshals auth f r h k s p = respond_error-IsStable _ (
      >>=-IsStable G (body_of r.body)
        (λ q. auth q r.authorization >>= λ _. f q >>= λ resp.
          if marshals resp
          then pure (record { status = 200; body = Body.json resp })
          else throw json_unsupported_value)
        (body_of-IsStable r.body)
        (λ q.
          >>=-IsStable G (auth q r.authorization)
            (λ _. f q >>= λ resp.
              if marshals resp
              then pure (record { status = 200; body = Body.json resp })
              else throw json_unsupported_value)
            (h q r.authorization)
            λ u.
              >>=-IsStable G (f q)
                (λ resp.
                  if marshals resp
                  then pure (record { status = 200; body = Body.json resp })
                  else throw json_unsupported_value)
                (k q)
                λ resp.
                  encode-IsStable (marshals resp) (record { status = 200; body = Body.json resp }))
        s p)

  pub no_auth-IsStable :
      {Q R : Type 0} (marshals : R → Bool) (f : Q → Api F B R) (r : Request Q)
      → ((q : Q) → Stable (f q))
      → Stable (no_auth marshals f r)
  unfolding no_auth
  no_auth-IsStable marshals f r k =
      outer-IsStable marshals (λ q header. pure tt) f r (λ q header s p. p) k

  pub with_user_auth-IsStable :
      {Q R : Type 0} (uid : Q → ObjectId) (marshals : R → Bool) (f : Q → Api F B R) (r : Request Q)
      → ((id : ObjectId) (o : Option Bytes) → Stable (check_bearer id o))
      → ((q : Q) → Stable (f q))
      → Stable (with_user_auth uid marshals f r)
  unfolding with_user_auth authenticate
  with_user_auth-IsStable uid marshals f r checked k =
      outer-IsStable marshals (λ q header. authenticate (uid q) header) f r
        (λ q header. checked (uid q) (bearer_token header)) k

module _ {F B : Type 0} (P : Db F → Type 0) (M : Option ℤ → Type 0) where
  pub check_bearer-IsStable :
      (uid : ObjectId) (o : Option Bytes) → IsStable (Holds {B = B} P M) (check_bearer uid o)
  unfolding check_bearer
  check_bearer-IsStable uid none s p = p
  check_bearer-IsStable uid (some token) s p =
      on_judge-IsStable P M
        (with_local_tx (recover (check_user_token uid token) (λ e. throw (unauthorized e))))
        (with_local_tx-IsKeeping P _ (
          recover-IsKeeping P (check_user_token uid token) (λ e. throw (unauthorized e))
            (check_user_token-IsKeeping P uid token) (λ e w h. h)))
        s p

module _ {F B : Type 0} (config : Config F B) (G : Server F B → Type 0)
    (reads : (tid : ObjectId) → IsStable G (get_task_statement config tid)) where
  statement_of-IsStable : (o : Option ℤ) → IsStable G (statement_of config o)
  unfolding statement_of
  statement_of-IsStable none s p = p
  statement_of-IsStable (some tid) s p =
      recover-IsStable G
        (get_task_statement config tid >>= λ statement.
          pure (record { status = 200; body = Body.raw statement }))
        (λ e. bad_request Body.empty)
        (>>=-IsStable G (get_task_statement config tid)
          (λ statement. pure (record { status = 200; body = Body.raw statement })) (reads tid)
          λ t s p. p)
        (λ e s p. p) s p

  pub serve_statement-IsStable : (o : Option Bytes) → IsStable G (serve_statement config o)
  unfolding serve_statement
  serve_statement-IsStable none s p = p
  serve_statement-IsStable (some tid_s) s p = statement_of-IsStable (parse_int tid_s) s p

module _ {F B : Type 0} (config : Config F B) (P : Db F → Type 0) (M : Option ℤ → Type 0) where
  pub get_task_statement-IsStable :
      (tid : ObjectId) → IsStable (Holds P M) (get_task_statement config tid)
  unfolding get_task_statement Tasks.get_task_statement
  get_task_statement-IsStable tid =
      on_judge-IsStable P M (with_tx (Tasks.get_task_statement tid))
        (with_tx-IsKeeping P (Tasks.get_task_statement tid) (query_row-IsKeeping P _ _ λ d s h. h))

  attachment_of-IsStable :
      (o : Option ℤ) (filename : Bytes) → IsStable (Holds P M) (attachment_of config o filename)
  unfolding attachment_of get_attachment
  attachment_of-IsStable none filename s p = p
  attachment_of-IsStable (some tid) filename s p =
      recover-IsStable (Holds P M)
        (get_attachment config tid filename >>= λ a.
          pure (record { status = 200; body = Body.raw a }))
        (λ e. pure (record { status = 500; body = Body.error_text e }))
        (>>=-IsStable (Holds P M) (get_attachment config tid filename)
          (λ a. pure (record { status = 200; body = Body.raw a }))
          (on_contest-IsStable P M (config.bridge.get_attachment tid filename)) λ a s p. p)
        (λ e s p. p) s p

  pub serve_attachment-IsStable :
      (filename tid_s : Bytes) → IsStable (Holds P M) (serve_attachment config filename tid_s)
  unfolding serve_attachment
  serve_attachment-IsStable filename tid_s s p = elim (Bool-cases (bytes_eq filename [])) [
    | inl missing ↦ rw missing p
    | inr named ↦ elim (Bool-cases (bytes_eq tid_s [])) [
      | inl missing ↦ rw (named, missing) p
      | inr given ↦ rw (named, given) (attachment_of-IsStable (parse_int tid_s) filename s p)
    ]
  ]
