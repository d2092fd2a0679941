-- ===== src/Store/Tests.antt =====
-- Runs of transactions over a database that is one number, and of scripts that count in one.
use oiaj.Base.{ℕ, suc, ◌≡◌, refl, false, Option, none, some, List, [], ◌∷◌}
use oiaj.Text.Bytes.{Bytes, codes, bytes_eq, split}
use oiaj.Store.Migrations.{Versioned, make_client}
use oiaj.Store.Migrations.Twice.{make_client_again}
use oiaj.Store.Errors.{Error, database, exec_failed, ok, err}
use oiaj.Store.Action.{◌>>◌}
use oiaj.Store.Session.{
  Statement, query_row, Fault, refused, cut, World, Tx, exec, close, with_tx, with_local_tx,
}
use oiaj.Store.Session.Finish.{with_tx_refused_commit}
use oiaj.Store.Session.Atomic.{started, Committed, with_tx-ok}
use oiaj.Store.Session.Ending.{IsEnding, with_tx-IsEnding, with_local_tx-IsEnding}

-- Two statements, of which each adds one.
abbrev count : Tx ℕ ℕ Unit
count = exec "UPDATE" (λ d s. (ok tt, suc d, s)) >> exec "UPDATE" (λ d s. (ok tt, suc d, s))

abbrev world_under : List (Option Fault) → World ℕ ℕ
world_under schedule = record {
  db = 5;
  sequences = 0;
  schedule = schedule;
  secrets = [];
  aborted = false;
  leaked = 0;
}

-- The second statement fails.
abbrev second_fails : World ℕ ℕ
second_fails = world_under (none ∷ none ∷ none ∷ some (refused 53) ∷ [])

-- The COMMIT is carried out and its answer is lost.
abbrev lost_answer : World ℕ ℕ
lost_answer = world_under (none ∷ none ∷ none ∷ none ∷ some (cut 0 8) ∷ [])

-- The COMMIT is refused: the caller is told of no error.
abbrev refused_commit : World ℕ ℕ
refused_commit = world_under (none ∷ none ∷ none ∷ none ∷ some (refused 53) ∷ [])

second_fails_result : (with_tx count second_fails).0 ≡ err (exec_failed "UPDATE" (database 53))
unfolding with_tx exec
second_fails_result = refl

lost_answer_db : (with_tx count lost_answer).1.db ≡ 7
unfolding with_tx exec close
lost_answer_db = refl

refused_commit_result :
    ((with_local_tx count refused_commit).0 ≡ ok tt)
    × ((with_local_tx count refused_commit).1.db ≡ 5)
unfolding with_local_tx exec close
refused_commit_result = (refl, refl)

with_tx-IsEnding_example :
    IsEnding count lost_answer
      (λ a r. (e : Error) × (r ≡ err e))
      (with_tx count lost_answer).0
      (with_tx count lost_answer).1
with_tx-IsEnding_example = with_tx-IsEnding count lost_answer

with_local_tx-IsEnding_example :
    IsEnding count refused_commit
      (λ a r. r ≡ ok a)
      (with_local_tx count refused_commit).0
      (with_local_tx count refused_commit).1
with_local_tx-IsEnding_example = with_local_tx-IsEnding count refused_commit

with_tx-ok_example :
    ((count (started (world_under []))).0 ≡ ok tt)
    × Committed count (world_under []) (with_tx count (world_under [])).1
unfolding with_tx exec close
with_tx-ok_example = with_tx-ok count (world_under []) tt refl

with_tx_refused_commit_example :
    ((with_tx count refused_commit).0 ≡ err (database 53))
    × ((with_local_tx count refused_commit).0 ≡ ok tt)
    × ((with_tx count refused_commit).1.db ≡ 5)
    × ((with_local_tx count refused_commit).1.db ≡ 5)
unfolding exec
with_tx_refused_commit_example =
    with_tx_refused_commit count refused_commit (count (started refused_commit)).1 tt 53 refl refl
      refl refl

-- Two scripts, of which one has two parts; the tables are the number of parts that have run.
abbrev scripts : List (Bytes × Bytes)
scripts = (codes "002.sql", codes "b") ∷ (codes "001.sql", codes "a;;c") ∷ []

abbrev tally : Bytes → Statement ℕ ℕ Unit
tally part n s = (ok tt, suc n, s)

abbrev fresh : World (Versioned ℕ) ℕ
fresh = record {
  db = record { versions = none; tables = 0 };
  sequences = 0;
  schedule = [];
  secrets = [];
  aborted = false;
  leaked = 0;
}

abbrev ready : World (Versioned ℕ) ℕ
ready = (make_client tally (λ ks. ks) scripts fresh).1

ready_tables : ready.db.tables ≡ 3
unfolding make_client exec query_row with_tx bytes_eq split
ready_tables = refl

make_client_again_example :
    make_client tally (λ ks. ks) scripts ready ≡ (ok tt, record (ready) { aborted = false })
unfolding make_client exec query_row with_tx bytes_eq
make_client_again_example = make_client_again tally scripts (λ ks. ks) fresh ready refl refl
