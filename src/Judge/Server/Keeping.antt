-- ===== src/Judge/Server/Keeping.antt =====
-- What holds of the judge's tables and of the clock that was set (oiajudge/pkg/oiajudge/mock.go)
-- through the functions of `Server`.
use oiaj.Base.{Option}
use oiaj.Base.Int.{ℤ}
use oiaj.Store.Errors.{Error}
use oiaj.Store.Action.{Action, ◌>>=◌, recover, >>=-state, recover-state}
use oiaj.Store.Session.Keeping.{IsKeeping}
use oiaj.Judge.Tables.{Db, JudgeTx}
use oiaj.Judge.Server.{Server, Api, on_judge, on_contest}

module _ {F B : Type 0} (G : Server F B → Type 0) where
  -- What holds of the server before holds after.
  abbrev pub IsStable : {A : Type 0} → Api F B A → Type 0
  IsStable m = (s : Server F B) → G s → G (m s).1

  pub >>=-IsStable :
      {A C : Type 0} (m : Api F B A) (f : A → Api F B C)
      → IsStable m
      → ((a : A) → IsStable (f a))
      → IsStable (m >>= f)
  >>=-IsStable m f h k s p = let one = h s p in >>=-state G m f s one λ a. k a (m s).1 one

  pub recover-IsStable :
      {A : Type 0} (m : Api F B A) (f : Error → Api F B A)
      → IsStable m
      → ((e : Error) → IsStable (f e))
      → IsStable (recover m f)
  recover-IsStable m f h k s p = let one = h s p in recover-state G m f s one λ e. k e (m s).1 one

module _ {F B : Type 0} (P : Db F → Type 0) (M : Option ℤ → Type 0) where
  -- Something holds of the judge's tables, and something of the instant that was set.
  abbrev pub Holds : Server F B → Type 0
  Holds s = P s.judge.db × M s.mock_time

  pub on_judge-IsStable :
      {A : Type 0} (m : JudgeTx F A) → IsKeeping P m → IsStable Holds (on_judge m)
  on_judge-IsStable m h s p = (h s.judge p.0, p.1)

  pub on_contest-IsStable : {A : Type 0} (m : Action B A) → IsStable Holds (on_contest m)
  on_contest-IsStable m s p = p
