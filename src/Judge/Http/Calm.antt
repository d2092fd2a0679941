-- ===== src/Judge/Http/Calm.antt =====
-- Panics and responses of the handlers of oiajudge/pkg/oiajudge/sever.go.
use oiaj.Base.{◌≡◌, refl, Bool, true, false, Option, none, some, [], if◌then◌else◌}
use oiaj.Text.Bytes.{Bytes}
use oiaj.Bridge.{ObjectId}
use oiaj.Store.Errors.{json_unsupported_value, Outcome, ok, err, panic}
use oiaj.Store.Action.{Action, ◌>>=◌, pure, throw, recover}
use oiaj.Store.Action.Calm.{Calm, IsCalm, pure-IsCalm, throw-IsCalm, >>=-IsCalm, recover-IsCalm}
use oiaj.Store.Session.{with_local_tx}
use oiaj.Store.Session.Calm.{Quiet, with_local_tx-IsCalm}
use oiaj.Judge.Tables.{JudgeTx}
use oiaj.Judge.Users.{check_user_token}
use oiaj.Judge.Users.Calm.{check_user_token-IsCalm}
use oiaj.Judge.Server.{Server, Api, on_judge, on_contest}
use oiaj.Judge.Http.{
  Request, Body, Response, process_error, unauthorized, malformed_auth, bad_json, respond_error,
  body_of, outer, no_auth, check_bearer, authenticate, bearer_token, with_user_auth,
}

-- A response comes back.
abbrev pub Answers : {W A : Type 0} → Outcome A × W → Type 0
Answers {W} {A} x = (a : A) × (w : W) × (x ≡ (ok a, w))

module _ {F B : Type 0} (Fine : B → Type 0) where
  -- No failure of the judge's database is to come, and something holds of the contest system.
  abbrev pub Still : Server F B → Type 0
  Still s = (s.judge.schedule ≡ []) × Fine s.contest

  pub on_judge-IsCalm : {A : Type 0} (m : JudgeTx F A) → IsCalm Quiet m → IsCalm Still (on_judge m)
  on_judge-IsCalm m h s g =
      let run = h s.judge g.0 in record { state = (run.state, g.1); returns = run.returns }

  pub on_contest-IsCalm :
      {A : Type 0} (m : Action B A) → IsCalm Fine m → IsCalm Still (on_contest m)
  on_contest-IsCalm m h s g =
      let run = h s.contest g.1 in record { state = (g.0, run.state); returns = run.returns }

  body_of-IsCalm : {Q : Type 0} (o : Option Q) → IsCalm Still (body_of o)
  unfolding body_of
  body_of-IsCalm none s g = throw-IsCalm Still bad_json s g
  body_of-IsCalm (some q) s g = pure-IsCalm Still q s g

  encode-IsCalm :
      {R : Type 0} (b : Bool) (r : Response R)
      → IsCalm Still (if b then pure r else throw json_unsupported_value)
  encode-IsCalm true r s g = pure-IsCalm Still r s g
  encode-IsCalm false r s g = throw-IsCalm Still json_unsupported_value s g

  respond_error-Answers :
      {R : Type 0} (x : Outcome (Response R) × Server F B)
      → Calm Still x
      → Answers (respond_error x)
  unfolding respond_error
  respond_error-Answers (ok r, s) h = (r, s, refl)
  respond_error-Answers (err e, s) h = (process_error e, s, refl)
  respond_error-Answers (panic m, s) h = absurd (h.returns m refl)

  pub outer-Answers :
      {Q R : Type 0} (marshals : R → Bool) (auth : Q → Bytes → Api F B Unit) (f : Q → Api F B R)
      (r : Request Q) (s : Server F B)
      → ((q : Q) (header : Bytes) → IsCalm Still (auth q header))
      → ((q : Q) → IsCalm Still (f q))
      → Still s
      → Answers (outer marshals auth f r s)
  unfolding outer
  outer-Answers {Q} {R} marshals auth f r s h k g =
      let encode : R → Api F B (Response R) = λ resp.
        if marshals resp
        then pure (record { status = 200; body = Body.json resp })
        else throw json_unsupported_value in
      respond_error-Answers _ (
        >>=-IsCalm Still (body_of r.body) (λ q. auth q r.authorization >>= λ _. f q >>= encode)
          (body_of-IsCalm r.body)
          (λ q.
            >>=-IsCalm Still (auth q r.authorization) (λ _. f q >>= encode) (h q r.authorization)
              λ u. >>=-IsCalm Still (f q) encode (k q) λ resp.
                encode-IsCalm (marshals resp) (record { status = 200; body = Body.json resp }))
          s g)

  pub no_auth-Answers :
      {Q R : Type 0} (marshals : R → Bool) (f : Q → Api F B R) (r : Request Q) (s : Server F B)
      → ((q : Q) → IsCalm Still (f q))
      → Still s
      → Answers (no_auth marshals f r s)
  unfolding no_auth
  no_auth-Answers marshals f r s k g =
      outer-Answers marshals (λ q header. pure tt) f r s (λ q header. pure-IsCalm Still tt) k g

  check_bearer-IsCalm : (uid : ObjectId) (o : Option Bytes) → IsCalm Still (check_bearer uid o)
  unfolding check_bearer
  check_bearer-IsCalm uid none s g = throw-IsCalm Still malformed_auth s g
  check_bearer-IsCalm uid (some token) s g =
      on_judge-IsCalm
        (with_local_tx (recover (check_user_token uid token) (λ e. throw (unauthorized e))))
        (with_local_tx-IsCalm _ (
          recover-IsCalm Quiet (check_user_token uid token) (λ e. throw (unauthorized e))
            (check_user_token-IsCalm uid token) λ e. throw-IsCalm Quiet (unauthorized e)))
        s g

  pub with_user_auth-Answers :
      {Q R : Type 0} (uid : Q → ObjectId) (marshals : R → Bool) (f : Q → Api F B R) (r : Request Q)
      (s : Server F B)
      → ((q : Q) → IsCalm Still (f q))
      → Still s
      → Answers (with_user_auth uid marshals f r s)
  unfolding with_user_auth authenticate
  with_user_auth-Answers uid marshals f r s k g =
      outer-Answers marshals (λ q header. authenticate (uid q) header) f r s
        (λ q header. check_bearer-IsCalm (uid q) (bearer_token header)) k g
