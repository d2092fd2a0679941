-- ===== src/Store/Session/Atomic.antt =====
-- A transaction happens as a whole or not at all.
use oiaj.Base.{ℕ, String, ◌≡◌, ◌⊎◌, inl, inr, false, arith, Option-cases}
use oiaj.Store.Errors.{Error, database, ok, err, panic, Outcome-cases}
use oiaj.Store.Session.{
  World, Tx, code_of, next_fault, pass, commit, rollback, release, with_tx, with_local_tx,
}

-- The state in which a transaction's body starts, after `Acquire` and `BEGIN`.
abbrev pub started : {D S : Type 0} → World D S → World D S
started w = record (pass (pass w)) { aborted = false }

module _ {D S A : Type 0} (body : Tx D S A) (w : World D S) where
  -- What the body leaves, if it is committed.
  abbrev pub Committed : World D S → Type 0
  Committed w' = (w'.db ≡ (body (started w)).1.db) × ((body (started w)).1.aborted ≡ false)

  -- Whatever fails, the database afterwards is the one before, or the one that the body left in a
  -- transaction of which no statement had failed.
  pub with_tx-all_or_nothing : ((with_tx body w).1.db ≡ w.db) ⊎ Committed (with_tx body w).1
  unfolding with_tx commit rollback release
  with_tx-all_or_nothing = ground arith

  -- The same for a function whose `err` is a local variable: whatever fails, the database afterwards
  -- is the one before, or the one that the body left in a transaction of which no statement had
  -- failed.
  pub with_local_tx-all_or_nothing :
      ((with_local_tx body w).1.db ≡ w.db) ⊎ Committed (with_local_tx body w).1
  unfolding with_local_tx commit rollback release
  with_local_tx-all_or_nothing = ground arith

  -- A function with a named error that returns a value without error has committed: its body
  -- returned that value, no statement of the transaction had failed, and the database is the one
  -- that the body left.
  pub with_tx-ok :
      (a : A)
      → (with_tx body w).0 ≡ ok a
      → ((body (started w)).0 ≡ ok a) × Committed (with_tx body w).1
  unfolding with_tx commit rollback release
  with_tx-ok a h = ground arith

  -- After an error nothing is committed.
  rolled_back : (e : Error) → (body (started w)).0 ≡ err e → (with_local_tx body w).1.db ≡ w.db
  unfolding with_local_tx commit rollback release
  rolled_back e h = ground arith

  -- A property of the database that holds before, and after the body where it returns or panics,
  -- holds after the transaction.
  pub with_local_tx-keeps :
      (P : D → Type 0)
      → P w.db
      → ((a : A) (w' : World D S) → body (started w) ≡ (ok a, w') → P w'.db)
      → ((m : String) (w' : World D S) → body (started w) ≡ (panic m, w') → P w'.db)
      → P (with_local_tx body w).1.db
  with_local_tx-keeps P before after_ok after_panic = elim with_local_tx-all_or_nothing [
    | inl same ↦ rw same before
    | inr (same, live) ↦ elim (Outcome-cases (body (started w)).0) [
      | inl (a, e) ↦ rw same (after_ok a (body (started w)).1 (ground arith))
      | inr (inl (x, e)) ↦ rw (rolled_back x e) before
      | inr (inr (m, e)) ↦ rw same (after_panic m (body (started w)).1 (ground arith))
    ]
  ]

  -- A function with a local error returns no error only where its body did.
  pub with_local_tx-ok : (a : A) → (with_local_tx body w).0 ≡ ok a → (body (started w)).0 ≡ ok a
  unfolding with_local_tx commit rollback release
  with_local_tx-ok a h = ground arith

  -- Its error is that of the body, or of `BEGIN`.
  pub with_local_tx-err :
      (e : Error)
      → (with_local_tx body w).0 ≡ err e
      → ((body (started w)).0 ≡ err e) ⊎ ((c : ℕ) × (e ≡ database c))
  unfolding with_local_tx commit rollback release
  with_local_tx-err e h = elim (Option-cases (next_fault w)) [
    | inl acquired ↦ elim (Option-cases (next_fault (pass w))) [
      | inl begun ↦ inl (ground arith)
      | inr (f, refused) ↦ inr (code_of f, ground arith)
    ]
    | inr (f, lost) ↦ absurd (ground arith)
  ]
