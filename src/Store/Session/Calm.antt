-- ===== src/Store/Session/Calm.antt =====
-- Panics in the round trips of oiajudge/pkg/store/store.go, where no failure is to come.
use oiaj.Base.{String, ◌≡◌, ◌≢◌, refl, inl, inr, Option, none, some, List, [], arith, Bool-cases}
use oiaj.Store.Errors.{Error, Outcome, ok, err, panic, exec_failed, query_failed}
use oiaj.Store.Action.Calm.{Calm, IsCalm}
use oiaj.Store.Session.{
  World, Tx, Statement, statement, settle, relabel, scan_row, pass, exec, query_row, query, stream,
  read_random, with_tx, with_local_tx, commit, rollback, release,
}
use oiaj.Store.Session.Atomic.{started}

-- No failure is to come.
abbrev pub Quiet : {D S : Type 0} → World D S → Type 0
Quiet w = w.schedule ≡ []

-- A statement that does not panic.
abbrev pub IsSafe : {D S A : Type 0} → Statement D S A → Type 0
IsSafe {D} {S} change = (d : D) (s : S) (m : String) → (change d s).0 ≢ panic m

module _ {D S : Type 0} where
  settle-Calm :
      {A : Type 0} (x : Outcome A × D × S) (w : World D S)
      → Quiet w
      → ((m : String) → x.0 ≢ panic m)
      → Calm Quiet (settle x w)
  unfolding settle
  settle-Calm (ok a, d, s) w g h = record { state = g; returns = λ m p. ground arith }
  settle-Calm (err e, d, s) w g h = record { state = g; returns = λ m p. ground arith }
  settle-Calm (panic m, d, s) w g h = absurd (h m refl)

  pub statement-IsCalm :
      {A : Type 0} (change : Statement D S A) → IsSafe change → IsCalm Quiet (statement change)
  unfolding statement
  statement-IsCalm change h w g = elim (Bool-cases w.aborted) [
    | inl dead ↦ rw (dead, g) (record { state = refl; returns = λ m p. ground arith })
    | inr live ↦
        rw (live, g)
          (settle-Calm (change w.db w.sequences) (pass w) (rw g refl) (h w.db w.sequences))
  ]

  relabel-Calm :
      {A : Type 0} (f : Error → Error) (x : Outcome A × World D S)
      → Calm Quiet x
      → Calm Quiet (relabel f x)
  unfolding relabel
  relabel-Calm f (ok a, w) h = record { state = h.state; returns = λ m p. ground arith }
  relabel-Calm f (err e, w) h = record { state = h.state; returns = λ m p. ground arith }
  relabel-Calm f (panic m, w) h = absurd (h.returns m refl)

  scan_row-Calm :
      {A : Type 0} (text : String) (x : Outcome (Option A) × World D S)
      → Calm Quiet x
      → Calm Quiet (scan_row text x)
  unfolding scan_row
  scan_row-Calm text (ok (some a), w) h = record { state = h.state; returns = λ m p. ground arith }
  scan_row-Calm text (ok none, w) h = record { state = h.state; returns = λ m p. ground arith }
  scan_row-Calm text (err e, w) h = record { state = h.state; returns = λ m p. ground arith }
  scan_row-Calm text (panic m, w) h = absurd (h.returns m refl)

  pub exec-IsCalm :
      (text : String) (change : Statement D S Unit)
      → IsSafe change
      → IsCalm Quiet (exec text change)
  unfolding exec
  exec-IsCalm text change h w g =
      relabel-Calm (exec_failed text) (statement change w) (statement-IsCalm change h w g)

  pub query_row-IsCalm :
      {A : Type 0} (text : String) (change : Statement D S (Option A))
      → IsSafe change
      → IsCalm Quiet (query_row text change)
  unfolding query_row
  query_row-IsCalm text change h w g =
      scan_row-Calm text (statement change w) (statement-IsCalm change h w g)

  stream-IsCalm :
      {A : Type 0} (change : Statement D S (List A)) → IsSafe change → IsCalm Quiet (stream change)
  unfolding stream
  stream-IsCalm change h w g = elim (Bool-cases w.aborted) [
    | inl dead ↦ rw (dead, g) (record { state = refl; returns = λ m p. ground arith })
    | inr live ↦ rw (live, g) (statement-IsCalm change h w g)
  ]

  pub query-IsCalm :
      {A : Type 0} (text : String) (change : Statement D S (List A))
      → IsSafe change
      → IsCalm Quiet (query text change)
  unfolding query
  query-IsCalm text change h w g =
      relabel-Calm (query_failed text) (stream change w) (stream-IsCalm change h w g)

  pub read_random-IsCalm : IsCalm Quiet (read_random {D = D} {S = S})
  unfolding read_random
  read_random-IsCalm w g = record { state = ground (arith, g); returns = λ m p. ground arith }

  pub with_tx-IsCalm :
      {A : Type 0} (body : Tx D S A) → IsCalm Quiet body → IsCalm Quiet (with_tx body)
  unfolding with_tx commit rollback release
  with_tx-IsCalm body h w g =
      let begun : (started w).schedule ≡ [] = ground (arith, g) in
      let run = h (started w) begun in
      record {
        state = ground (arith, g, run.state);
        returns = λ m p. run.returns m (ground (arith, g, run.state, p));
      }

  pub with_local_tx-IsCalm :
      {A : Type 0} (body : Tx D S A) → IsCalm Quiet body → IsCalm Quiet (with_local_tx body)
  unfolding with_local_tx commit rollback release
  with_local_tx-IsCalm body h w g =
      let begun : (started w).schedule ≡ [] = ground (arith, g) in
      let run = h (started w) begun in
      record {
        state = ground (arith, g, run.state);
        returns = λ m p. run.returns m (ground (arith, g, run.state, p));
      }
