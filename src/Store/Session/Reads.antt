-- ===== src/Store/Session/Reads.antt =====
-- Actions that change no table.
use oiaj.Base.{String, ◌≡◌, refl, ◌∙◌, Option, List, [], arith, inl, inr}
use oiaj.Store.Errors.{Error, Outcome}
use oiaj.Store.Action.{◌>>=◌, recover, pure, lift, >>=-state, recover-state}
use oiaj.Store.Session.{
  World, Tx, statement, query_row, query, stream, with_tx, commit, rollback, release,
}
use oiaj.Store.Session.Atomic.{started, with_tx-all_or_nothing}

-- The database is the same and no failure is to come.
pub record IsSame {D S : Type 0} (w w' : World D S) : Type 0 where
  pub db : w'.db ≡ w.db
  pub quiet : w'.schedule ≡ []

-- An action reads, where no failure is to come.
abbrev pub IsReading : {D S A : Type 0} → Tx D S A → Type 0
IsReading {D} {S} m = (w : World D S) → w.schedule ≡ [] → IsSame w (m w).1

module _ {D S : Type 0} where
  IsSame-trans : {w w1 w2 : World D S} → IsSame w w1 → IsSame w1 w2 → IsSame w w2
  IsSame-trans h k = record { db = k.db ∙ h.db; quiet = k.quiet }

  pub pure-IsReading : {A : Type 0} (a : A) → IsReading {D = D} {S = S} (pure a)
  pure-IsReading a w quiet = record { db = refl; quiet = quiet }

  pub lift-IsReading : {A : Type 0} (r : Outcome A) → IsReading {D = D} {S = S} (lift r)
  lift-IsReading r w quiet = record { db = refl; quiet = quiet }

  pub >>=-IsReading :
      {A B : Type 0} (m : Tx D S A) (f : A → Tx D S B)
      → IsReading m
      → ((a : A) → IsReading (f a))
      → IsReading (m >>= f)
  >>=-IsReading m f h k w quiet =
      let same = h w quiet in
      >>=-state (IsSame w) m f w same λ a. IsSame-trans same (k a (m w).1 same.quiet)

  pub recover-IsReading :
      {A : Type 0} (m : Tx D S A) (f : Error → Tx D S A)
      → IsReading m
      → ((e : Error) → IsReading (f e))
      → IsReading (recover m f)
  recover-IsReading m f h k w quiet =
      let same = h w quiet in
      recover-state (IsSame w) m f w same λ e. IsSame-trans same (k e (m w).1 same.quiet)

  -- A SELECT.
  pub query_row-IsReading :
      {A : Type 0} (text : String) (value : D → Outcome (Option A))
      → IsReading {D = D} {S = S} (query_row text (λ d s. (value d, d, s)))
  unfolding query_row statement
  query_row-IsReading text value w quiet = record { db = ground arith; quiet = ground arith }

  pub query-IsReading :
      {A : Type 0} (text : String) (value : D → Outcome (List A))
      → IsReading {D = D} {S = S} (query text (λ d s. (value d, d, s)))
  unfolding query stream statement
  query-IsReading text value w quiet = record { db = ground arith; quiet = ground arith }

  pub with_tx-IsReading : {A : Type 0} (m : Tx D S A) → IsReading m → IsReading (with_tx m)
  unfolding with_tx commit rollback release
  with_tx-IsReading m h w quiet =
      let begun : (started w).schedule ≡ [] = ground arith in
      let same = h (started w) begun in
      record {
        db = elim (with_tx-all_or_nothing m w) [ inl kept ↦ kept | inr (e, live) ↦ e ∙ same.db ];
        quiet = ground (arith, same.quiet);
      }
