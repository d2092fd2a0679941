-- ===== src/Store/Session.antt =====
-- `Transaction` and `DBClient` of oiajudge/pkg/store/store.go. The state is what PostgreSQL holds
-- and how it will answer: `schedule` has one entry for each round trip to come, `none` for an
-- answer and `some` for a failure, and past its end every round trip is answered.
pub mod Laws
pub mod Inverse
pub mod Atomic
pub mod Ending
pub mod Finish
pub mod Reads
pub mod Keeps
pub mod Keeping
pub mod Calm
use oiaj.Base.{
  ℕ, ◌+◌, String, Bool, true, false, Option, none, some, List, [], ◌∷◌, if◌then◌else◌, take,
}
use oiaj.Text.Bytes.{Bytes}
use oiaj.Store.Action.{Action}
use oiaj.Store.Errors.{
  Error, no_rows, database, transaction_aborted, commit_rolled_back, custom, query_failed,
  exec_failed, random_failed, Outcome, ok, err, panic,
}

-- `refused e` fails at once. `cut n e` fails later: a query delivers n rows first, and a COMMIT is
-- carried out but its answer is lost.
pub data Fault : Type 0 where
  refused : ℕ → Fault
  cut : ℕ → ℕ → Fault

-- `sequences` is not transactional: what a sequence has drawn is not given back. `secrets` are the
-- reads of the system's random source to come, `leaked` the connections that were never released,
-- and `aborted` says that a statement of the open transaction has failed.
pub record World (D S : Type 0) : Type 0 where
  pub db : D
  pub sequences : S
  pub schedule : List (Option Fault)
  pub secrets : List Bytes
  pub aborted : Bool
  pub leaked : ℕ

abbrev pub code_of : Fault → ℕ
code_of (refused e) = e
code_of (cut n e) = e

abbrev pub Tx : Type 0 → Type 0 → Type 0 → Type 0
Tx D S A = Action (World D S) A

-- A statement that reads and changes the database, or violates a constraint. A statement that
-- fails aborts the transaction; what it drew from a sequence stays drawn.
abbrev pub Statement : Type 0 → Type 0 → Type 0 → Type 0
Statement D S A = D → S → Outcome A × D × S

module _ {D S : Type 0} where
  -- A round trip is answered, or meets the next entry of the schedule.
  abbrev pub next_fault : World D S → Option Fault
  next_fault w = elim w.schedule [ [] ↦ none | f ∷ rest ↦ f ]

  abbrev pub pass : World D S → World D S
  pass w = record w { schedule = elim w.schedule [ [] ↦ [] | f ∷ rest ↦ rest ] }

  abbrev pub abort : World D S → World D S
  abort w = record w { aborted = true }

  settle : {A : Type 0} → Outcome A × D × S → World D S → Outcome A × World D S
  settle (ok a, d, s) w = (ok a, record w { db = d; sequences = s })
  settle (err e, d, s) w = (err e, record w { sequences = s; aborted = true })
  settle (panic m, d, s) w = (panic m, w)

  -- The answer to one statement with one result.
  unfoldable pub statement : {A : Type 0} → Statement D S A → Tx D S A
  unfolding settle
  statement change w =
      if w.aborted then (err transaction_aborted, pass w) else elim (next_fault w) [
        | some f ↦ (err (database (code_of f)), abort (pass w))
        | none ↦ settle (change w.db w.sequences) (pass w)
      ]

  relabel : {A : Type 0} → (Error → Error) → Outcome A × World D S → Outcome A × World D S
  relabel f (ok a, w) = (ok a, w)
  relabel f (err e, w) = (err (f e), w)
  relabel f (panic m, w) = (panic m, w)

  -- `tx.Exec(query, …)`
  unfoldable pub exec : String → Statement D S Unit → Tx D S Unit
  unfolding statement relabel
  exec query change w = relabel (exec_failed query) (statement change w)

  scan_row : {A : Type 0} → String → Outcome (Option A) × World D S → Outcome A × World D S
  scan_row query (ok (some a), w) = (ok a, w)
  scan_row query (ok none, w) = (err (custom query no_rows), w)
  scan_row query (err e, w) = (err (custom query e), w)
  scan_row query (panic m, w) = (panic m, w)

  -- `tx.QueryRow(query, …).Scan(…)`: a missing row is an error of the client alone.
  unfoldable pub query_row : {A : Type 0} → String → Statement D S (Option A) → Tx D S A
  unfolding statement scan_row
  query_row query change w = scan_row query (statement change w)

  -- The rows that arrive before a connection breaks.
  rows_before :
      {A : Type 0} → ℕ → Outcome (List A) × D × S → World D S → Outcome (List A) × World D S
  rows_before n (ok rows, d, s) w = (ok (take n rows), abort w)
  rows_before n (err e, d, s) w = (err e, abort w)
  rows_before n (panic m, d, s) w = (panic m, w)

  -- The rows of a SELECT. The program stops at `rows.Next()` and never reads `rows.Err()`, so rows
  -- that a failure cuts off look like the end.
  unfoldable pub stream : {A : Type 0} → Statement D S (List A) → Tx D S (List A)
  unfolding statement rows_before
  stream change w = if w.aborted then (err transaction_aborted, pass w) else elim (next_fault w) [
    | some (cut n e) ↦ rows_before n (change w.db w.sequences) (pass w)
    | _ ↦ statement change w
  ]

  -- `tx.Query(query, …)` and the loop over its rows.
  unfoldable pub query : {A : Type 0} → String → Statement D S (List A) → Tx D S (List A)
  unfolding stream relabel
  query text change w = relabel (query_failed text) (stream change w)

  -- `rand.Read` into a slice that the next secret fills.
  unfoldable pub read_random : Tx D S Bytes
  read_random w = elim w.secrets [
    | [] ↦ (err random_failed, w)
    | s ∷ rest ↦ (ok s, record w { secrets = rest })
  ]

  -- COMMIT, on a transaction that began at `saved`: the error that it returns, if any.
  commit : D → World D S → Option Error × World D S
  commit saved w = elim (next_fault w) [
    | some (refused e) ↦ (some (database e), record (pass w) { db = saved })
    | some (cut n e) ↦
        (some (database e), record (pass w) { db = if w.aborted then saved else w.db })
    | none ↦
        if w.aborted
        then (some commit_rolled_back, record (pass w) { db = saved })
        else (none, pass w)
  ]

  -- ROLLBACK: a lost connection rolls back too.
  rollback : D → World D S → Option Error × World D S
  rollback saved w = (
    elim (next_fault w) [ some f ↦ some (database (code_of f)) | none ↦ none ],
    record (pass w) { db = saved },
  )

  -- `tx.Conn.Release()`, which `Close` skips when it returns an error.
  release : Option Error × World D S → Option Error × World D S
  release (some e, w) = (some e, record w { leaked = w.leaked + 1 })
  release (none, w) = (none, w)

  -- `tx.Close(&err)` on a transaction that is not nil and whose `Cancel` is unset: the value of
  -- `err` before, and after.
  unfoldable pub close : D → Option Error → World D S → Option Error × World D S
  unfolding commit rollback release
  close saved (some e) w = (some e, (release (rollback saved w)).1)
  close saved none w = release (commit saved w)

  -- How a deferred `Close` changes what the function returns: where `err` is a named result it
  -- becomes the result; where it is a local variable the result stands. A panic is on its way with
  -- `err` still nil.
  finish_named : {A : Type 0} → D → Outcome A × World D S → Outcome A × World D S
  finish_named saved (ok a, w) =
      let (e, w') = close saved none w in (elim e [ some x ↦ err x | none ↦ ok a ], w')
  finish_named saved (err e, w) = (err e, (close saved (some e) w).1)
  finish_named saved (panic m, w) = (panic m, (close saved none w).1)

  finish_local : {A : Type 0} → D → Outcome A × World D S → Outcome A × World D S
  finish_local saved (ok a, w) = (ok a, (close saved none w).1)
  finish_local saved (err e, w) = (err e, (close saved (some e) w).1)
  finish_local saved (panic m, w) = (panic m, (close saved none w).1)

  -- `db.Tx(ctx)`, with the function that closes what it opens and the transaction's body. When
  -- `Acquire` fails, `Tx` returns two nils, and every caller goes on to read `*tx`.
  open_tx : {A : Type 0} → (D → Outcome A × World D S → Outcome A × World D S) → Tx D S A → Tx D S A
  open_tx finish body w = elim (next_fault w) [
    | some f ↦ (panic "nil pointer dereference", pass w)
    | none ↦
        let w1 = pass w in
        elim (next_fault w1) [
          | some f ↦ (err (database (code_of f)), pass w1)
          | none ↦ finish w.db (body (record (pass w1) { aborted = false }))
        ]
  ]

  -- A function with the result `(…, err error)` that runs its body between `Tx` and `Close`.
  unfoldable pub with_tx : {A : Type 0} → Tx D S A → Tx D S A
  unfolding open_tx finish_named close
  with_tx body = open_tx finish_named body

  -- A function with an unnamed result, whose `err` is a local variable.
  unfoldable pub with_local_tx : {A : Type 0} → Tx D S A → Tx D S A
  unfolding open_tx finish_local close
  with_local_tx body = open_tx finish_local body
