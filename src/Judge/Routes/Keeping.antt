-- ===== src/Judge/Routes/Keeping.antt =====
-- What holds through the handlers as `MakeServer` (oiajudge/pkg/oiajudge/sever.go) puts them into
-- the table of routes.
use oiaj.Base.{Bool, Option}
use oiaj.Text.Bytes.{Bytes}
use oiaj.Bridge.{ObjectId}
use oiaj.Store.Action.{pure}
use oiaj.Judge.Server.{Server, Api}
use oiaj.Judge.Server.Keeping.{IsStable, >>=-IsStable}
use oiaj.Judge.Http.{Response, no_auth, check_bearer, with_user_auth}
use oiaj.Judge.Http.Keeping.{no_auth-IsStable, with_user_auth-IsStable}
use oiaj.Judge.Routes.{Payload, Incoming, wrap, with_payload, request}

module _ {F B : Type 0} (G : Server F B → Type 0) where
  abbrev Stable : {A : Type 0} → Api F B A → Type 0
  Stable m = IsStable G m

  pub with_payload-IsStable :
      {R : Type 0} (f : R → Payload F) (m : Api F B (Response R))
      → Stable m
      → Stable (with_payload f m)
  unfolding with_payload
  with_payload-IsStable f m h = >>=-IsStable G m (λ r. pure (wrap f r)) h λ r s p. p

  pub open_route-IsStable :
      {Q R : Type 0} (f : R → Payload F) (marshals : R → Bool) (api : Q → Api F B R)
      (decode : Bytes → Option Q) (r : Incoming)
      → ((q : Q) → Stable (api q))
      → Stable (with_payload f (no_auth marshals api (request decode r)))
  open_route-IsStable f marshals api decode r h =
      with_payload-IsStable f (no_auth marshals api (request decode r))
        (no_auth-IsStable G marshals api (request decode r) h)

  pub guarded_route-IsStable :
      ((id : ObjectId) (o : Option Bytes) → Stable (check_bearer id o))
      → {Q R : Type 0} (f : R → Payload F) (uid : Q → ObjectId) (marshals : R → Bool)
        (api : Q → Api F B R) (decode : Bytes → Option Q) (r : Incoming)
      → ((q : Q) → Stable (api q))
      → Stable (with_payload f (with_user_auth uid marshals api (request decode r)))
  guarded_route-IsStable checked f uid marshals api decode r h =
      with_payload-IsStable f (with_user_auth uid marshals api (request decode r))
        (with_user_auth-IsStable G uid marshals api (request decode r) checked h)
