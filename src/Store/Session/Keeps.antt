-- ===== src/Store/Session/Keeps.antt =====
-- What a round trip of `Transaction` (oiajudge/pkg/store/store.go) does to a property of the tables
-- and the sequences, whatever PostgreSQL fails at.
use oiaj.Base.{String, ◌≡◌, refl, Option, none, some, List, arith, ◌⊎◌, Bool-cases, inl, inr}
use oiaj.Store.Errors.{Error, database, exec_failed, Outcome, ok, err, panic}
use oiaj.Store.Session.{
  World, Statement, statement, settle, relabel, scan_row, next_fault, pass, abort, code_of, exec,
  query_row, query, stream, Tx, with_tx, commit, rollback, release,
}
use oiaj.Store.Session.Atomic.{started}

-- What a statement does to the tables and the sequences, as far as a property of them goes.
module _ {D S A : Type 0} (P : D → S → Type 0) where
  settled :
      (x : Outcome A × D × S) (w : World D S)
      → P w.db w.sequences
      → P w.db x.2
      → P x.1 x.2
      → P (settle x w).1.db (settle x w).1.sequences
  unfolding settle
  settled (ok a, d, s) w h k l = l
  settled (err e, d, s) w h k l = k
  settled (panic m, d, s) w h k l = h

  pub statement-keeps :
      (change : Statement D S A) (w : World D S)
      → P w.db w.sequences
      → P w.db (change w.db w.sequences).2
      → P (change w.db w.sequences).1 (change w.db w.sequences).2
      → P (statement change w).1.db (statement change w).1.sequences
  unfolding statement
  statement-keeps change w h k l = elim (Bool-cases w.aborted) [
    | inl dead ↦ rw dead h
    | inr live ↦
        rw live
          (elim (next_fault w)
            as (λ o.
              P
                (elim o as (λ _. Outcome A × World D S) [
                  | some f ↦ (err (database (code_of f)), abort (pass w))
                  | none ↦ settle (change w.db w.sequences) (pass w)
                ]).1.db
                (elim o as (λ _. Outcome A × World D S) [
                  | some f ↦ (err (database (code_of f)), abort (pass w))
                  | none ↦ settle (change w.db w.sequences) (pass w)
                ]).1.sequences) [
                  | some f ↦ h
                  | none ↦ settled (change w.db w.sequences) (pass w) h k l
                ])
  ]

relabel-state :
    {D S A : Type 0} (f : Error → Error) (x : Outcome A × World D S) → (relabel f x).1 ≡ x.1
unfolding relabel
relabel-state f (ok a, w) = refl
relabel-state f (err e, w) = refl
relabel-state f (panic m, w) = refl

scan_row-state :
    {D S A : Type 0} (text : String) (x : Outcome (Option A) × World D S)
    → (scan_row text x).1 ≡ x.1
unfolding scan_row
scan_row-state text (ok (some a), w) = refl
scan_row-state text (ok none, w) = refl
scan_row-state text (err e, w) = refl
scan_row-state text (panic m, w) = refl

module _ {D S : Type 0} (P : D → S → Type 0) (w : World D S) where
  -- A property of the tables and the sequences holds after a round trip if it holds before it, after
  -- the change, and where the statement fails and only the sequences move on.
  pub exec-keeps :
      (text : String) (change : Statement D S Unit)
      → P w.db w.sequences
      → P w.db (change w.db w.sequences).2
      → P (change w.db w.sequences).1 (change w.db w.sequences).2
      → P (exec text change w).1.db (exec text change w).1.sequences
  unfolding exec
  exec-keeps text change h k l =
      rw (relabel-state (exec_failed text) (statement change w)) (statement-keeps P change w h k l)

  pub query_row-keeps :
      {A : Type 0} (text : String) (change : Statement D S (Option A))
      → P w.db w.sequences
      → P w.db (change w.db w.sequences).2
      → P (change w.db w.sequences).1 (change w.db w.sequences).2
      → P (query_row text change w).1.db (query_row text change w).1.sequences
  unfolding query_row
  query_row-keeps text change h k l =
      rw (scan_row-state text (statement change w)) (statement-keeps P change w h k l)

  -- A SELECT, of which the rows may be cut off.
  pub query-keeps :
      {A : Type 0} (text : String) (value : D → Outcome (List A))
      → P w.db w.sequences
      → P
          (query text (λ d s. (value d, d, s)) w).1.db
          (query text (λ d s. (value d, d, s)) w).1.sequences
  unfolding query stream statement
  query-keeps text value h =
      let same : (query text (λ d s. (value d, d, s)) w).1.db ≡ w.db = ground arith in
      let drawn : (query text (λ d s. (value d, d, s)) w).1.sequences ≡ w.sequences =
        ground arith in
      rw (same, drawn) h

-- The sequences after a transaction are those that its body left, also where it is rolled back.
module _ {D S A : Type 0} (body : Tx D S A) (w : World D S) where
  pub with_tx-parts :
      (((with_tx body w).1.db ≡ w.db) × ((with_tx body w).1.sequences ≡ w.sequences))
      ⊎ ((((with_tx body w).1.db ≡ w.db) ⊎ ((with_tx body w).1.db ≡ (body (started w)).1.db))
          × ((with_tx body w).1.sequences ≡ (body (started w)).1.sequences))
  unfolding with_tx commit rollback release
  with_tx-parts = ground arith
