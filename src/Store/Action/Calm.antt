-- ===== src/Store/Action/Calm.antt =====
-- Panics in functions that return a value or an error.
use oiaj.Base.{String, ◌≢◌, refl, arith}
use oiaj.Store.Errors.{Error, Outcome, ok, err, panic}
use oiaj.Store.Action.{Action, ◌>>=◌, pure, throw, recover, lift}

-- No panic, and `G` of the state that is left.
pub record Calm {W A : Type 0} (G : W → Type 0) (x : Outcome A × W) : Type 0 where
  pub state : G x.1
  pub returns : (m : String) → x.0 ≢ panic m

module _ {W : Type 0} (G : W → Type 0) where
  abbrev pub IsCalm : {A : Type 0} → Action W A → Type 0
  IsCalm m = (w : W) → G w → Calm G (m w)

  pub pure-IsCalm : {A : Type 0} (a : A) → IsCalm (pure a)
  pure-IsCalm a w g = record { state = g; returns = λ m h. ground arith }

  pub throw-IsCalm : {A : Type 0} (e : Error) → IsCalm (throw {A = A} e)
  throw-IsCalm e w g = record { state = g; returns = λ m h. ground arith }

  pub lift-IsCalm : {A : Type 0} (r : Outcome A) → ((m : String) → r ≢ panic m) → IsCalm (lift r)
  lift-IsCalm r h w g = record { state = g; returns = h }

  continued :
      {A B : Type 0} (x : Outcome A × W) (f : A → Action W B)
      → Calm G x
      → ((a : A) → IsCalm (f a))
      → Calm G (((λ _. x) >>= f) x.1)
  continued (ok a, w) f h k = k a w h.state
  continued (err e, w) f h k = record { state = h.state; returns = λ m p. ground arith }
  continued (panic m, w) f h k = absurd (h.returns m refl)

  pub >>=-IsCalm :
      {A B : Type 0} (m : Action W A) (f : A → Action W B)
      → IsCalm m
      → ((a : A) → IsCalm (f a))
      → IsCalm (m >>= f)
  >>=-IsCalm m f h k w g = continued (m w) f (h w g) k

  recovered :
      {A : Type 0} (x : Outcome A × W) (f : Error → Action W A)
      → Calm G x
      → ((e : Error) → IsCalm (f e))
      → Calm G (recover (λ _. x) f x.1)
  recovered (ok a, w) f h k = record { state = h.state; returns = λ m p. ground arith }
  recovered (err e, w) f h k = k e w h.state
  recovered (panic m, w) f h k = absurd (h.returns m refl)

  pub recover-IsCalm :
      {A : Type 0} (m : Action W A) (f : Error → Action W A)
      → IsCalm m
      → ((e : Error) → IsCalm (f e))
      → IsCalm (recover m f)
  recover-IsCalm m f h k w g = recovered (m w) f (h w g) k
