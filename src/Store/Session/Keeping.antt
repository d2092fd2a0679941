-- ===== src/Store/Session/Keeping.antt =====
-- A property of the tables through whole functions of oiajudge/pkg/store/store.go's clients,
-- whatever PostgreSQL fails at.
use oiaj.Base.{String, Option, List, [], ◌∷◌, inl, inr}
use oiaj.Text.Bytes.{Bytes}
use oiaj.Store.Errors.{Error, Outcome, ok, err, random_failed}
use oiaj.Store.Action.{◌>>=◌, recover, >>=-state, recover-state}
use oiaj.Store.Session.{
  World, Tx, Statement, exec, query_row, query, read_random, with_tx, with_local_tx,
}
use oiaj.Store.Session.Keeps.{exec-keeps, query_row-keeps, query-keeps}
use oiaj.Store.Session.Atomic.{started, with_tx-all_or_nothing, with_local_tx-all_or_nothing}

-- The property holds after every run, whatever it returns, if it held before.
abbrev pub IsKeeping : {D S A : Type 0} → (D → Type 0) → Tx D S A → Type 0
IsKeeping {D} {S} P m = (w : World D S) → P w.db → P (m w).1.db

module _ {D S : Type 0} (P : D → Type 0) where
  pub >>=-IsKeeping :
      {A B : Type 0} (m : Tx D S A) (f : A → Tx D S B)
      → IsKeeping P m
      → ((a : A) → IsKeeping P (f a))
      → IsKeeping P (m >>= f)
  >>=-IsKeeping m f h k w p =
      let one = h w p in >>=-state (λ v. P v.db) m f w one λ a. k a (m w).1 one

  pub recover-IsKeeping :
      {A : Type 0} (m : Tx D S A) (f : Error → Tx D S A)
      → IsKeeping P m
      → ((e : Error) → IsKeeping P (f e))
      → IsKeeping P (recover m f)
  recover-IsKeeping m f h k w p =
      let one = h w p in recover-state (λ v. P v.db) m f w one λ e. k e (m w).1 one

  pub exec-IsKeeping :
      (text : String) (change : Statement D S Unit)
      → ((d : D) (s : S) → P d → P (change d s).1)
      → IsKeeping P (exec text change)
  exec-IsKeeping text change h w p =
      exec-keeps (λ d s. P d) w text change p p (h w.db w.sequences p)

  pub query_row-IsKeeping :
      {A : Type 0} (text : String) (change : Statement D S (Option A))
      → ((d : D) (s : S) → P d → P (change d s).1)
      → IsKeeping P (query_row text change)
  query_row-IsKeeping text change h w p =
      query_row-keeps (λ d s. P d) w text change p p (h w.db w.sequences p)

  pub query-IsKeeping :
      {A : Type 0} (text : String) (value : D → Outcome (List A))
      → IsKeeping {S = S} P (query text (λ d s. (value d, d, s)))
  query-IsKeeping text value w p = query-keeps (λ d s. P d) w text value p

  pub read_random-IsKeeping : IsKeeping {S = S} P read_random
  unfolding read_random
  read_random-IsKeeping w p =
      elim w.secrets
        as (λ x.
          P
            (elim x as (λ _. Outcome Bytes × World D S) [
              | [] ↦ (err random_failed, w)
              | s ∷ rest ↦ (ok s, record w { secrets = rest })
            ]).1.db) [ [] ↦ p | s ∷ rest ↦ p ]

  -- A transaction commits what its body left, or keeps what there was.
  pub with_tx-IsKeeping :
      {A : Type 0} (body : Tx D S A) → IsKeeping P body → IsKeeping P (with_tx body)
  with_tx-IsKeeping body h w p = elim (with_tx-all_or_nothing body w) [
    | inl same ↦ rw same p
    | inr (done, live) ↦ rw done (h (started w) p)
  ]

  pub with_local_tx-IsKeeping :
      {A : Type 0} (body : Tx D S A) → IsKeeping P body → IsKeeping P (with_local_tx body)
  with_local_tx-IsKeeping body h w p = elim (with_local_tx-all_or_nothing body w) [
    | inl same ↦ rw same p
    | inr (done, live) ↦ rw done (h (started w) p)
  ]
