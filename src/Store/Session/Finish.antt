-- ===== src/Store/Session/Finish.antt =====
-- How a transaction ends when its statements have gone through.
use oiaj.Base.{◌≡◌, sym, ap, ◌∙◌, false, none, some, [], ◌∷◌, arith, ℕ}
use oiaj.Store.Errors.{Error, database, ok, err}
use oiaj.Store.Session.{
  World, Tx, refused, next_fault, pass, commit, rollback, release, with_tx, with_local_tx,
}
use oiaj.Store.Session.Laws.{IsUp}
use oiaj.Store.Session.Atomic.{started}

module _ {D S : Type 0} where
  -- With no failure to come, a round trip leaves the world as it is.
  pass-quiet : (w : World D S) → w.schedule ≡ [] → pass w ≡ w
  pass-quiet w h =
      ap (λ x. record w { schedule = elim x [ [] ↦ [] | f ∷ rest ↦ rest ] }) h
      ∙ ap (λ x. record w { schedule = x }) (sym h)

  started-quiet : (w : World D S) → w.schedule ≡ [] → started w ≡ record w { aborted = false }
  started-quiet w h =
      ap {A = World D S} (λ v. record v { aborted = false })
        (ap pass (pass-quiet w h) ∙ pass-quiet w h)

module _ {D S A : Type 0} (body : Tx D S A) (w w' : World D S) (a : A) where
  -- When PostgreSQL answers and the body goes through, the transaction commits what it left.
  pub with_tx-up :
      w.schedule ≡ []
      → body (record w { aborted = false }) ≡ (ok a, w')
      → IsUp w'
      → with_tx body w ≡ (ok a, w')
  unfolding with_tx commit release
  with_tx-up quiet ran up =
      let reached = ap body (started-quiet w quiet) ∙ ran in
      let after = pass-quiet w' up.answered in ground (arith, up.answered, up.live)

  pub with_local_tx-up :
      w.schedule ≡ []
      → body (record w { aborted = false }) ≡ (ok a, w')
      → IsUp w'
      → with_local_tx body w ≡ (ok a, w')
  unfolding with_local_tx commit release
  with_local_tx-up quiet ran up =
      let reached = ap body (started-quiet w quiet) ∙ ran in
      let after = pass-quiet w' up.answered in ground (arith, up.answered, up.live)

  -- When the body goes through and PostgreSQL refuses the COMMIT, nothing is stored; a function with
  -- a named error returns the refusal, and one with a local error returns no error.
  pub with_tx_refused_commit :
      (e : ℕ)
      → next_fault w ≡ none
      → next_fault (pass w) ≡ none
      → body (started w) ≡ (ok a, w')
      → next_fault w' ≡ some (refused e)
      → ((with_tx body w).0 ≡ err (database e))
        × ((with_local_tx body w).0 ≡ ok a)
        × ((with_tx body w).1.db ≡ w.db)
        × ((with_local_tx body w).1.db ≡ w.db)
  unfolding with_tx with_local_tx commit release
  with_tx_refused_commit e acquired begun ran fails = ground arith

module _ {D S A : Type 0} (body : Tx D S A) (w w' : World D S) (e : Error) where
  -- When PostgreSQL answers and the body fails, the transaction is rolled back.
  pub with_tx_err-up :
      w.schedule ≡ []
      → body (record w { aborted = false }) ≡ (err e, w')
      → w'.schedule ≡ []
      → with_tx body w ≡ (err e, record w' { db = w.db })
  unfolding with_tx rollback release
  with_tx_err-up quiet ran answered =
      let reached = ap body (started-quiet w quiet) ∙ ran in ground (arith, answered)
