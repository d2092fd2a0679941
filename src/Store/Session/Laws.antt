-- ===== src/Store/Session/Laws.antt =====
-- What a round trip does in a transaction that PostgreSQL answers to the end.
use oiaj.Base.{String, ◌≡◌, true, false, Option, none, some, List, [], arith}
use oiaj.Store.Errors.{Error, no_rows, custom, exec_failed, ok, err}
use oiaj.Store.Session.{
  World, Statement, statement, exec, query_row, query, stream, settle, relabel, scan_row,
}

-- No failure is scheduled and no statement of the transaction has failed.
pub record IsUp {D S : Type 0} (w : World D S) : Type 0 where
  pub answered : w.schedule ≡ []
  pub live : w.aborted ≡ false

module _ {D S : Type 0} (w : World D S) (up : IsUp w) where
  pub exec-ok :
      (q : String) (change : Statement D S Unit) (d : D) (s : S)
      → change w.db w.sequences ≡ (ok tt, d, s)
      → exec q change w ≡ (ok tt, record w { db = d; sequences = s })
  unfolding exec statement settle relabel
  exec-ok q change d s h = rw (up.live, up.answered, h) (ground arith)

  pub exec-err :
      (q : String) (change : Statement D S Unit) (e : Error) (d : D) (s : S)
      → change w.db w.sequences ≡ (err e, d, s)
      → exec q change w ≡ (err (exec_failed q e), record w { sequences = s; aborted = true })
  unfolding exec statement settle relabel
  exec-err q change e d s h = rw (up.live, up.answered, h) (ground arith)

module _ {D S A : Type 0} (w : World D S) (up : IsUp w) where
  pub query_row-some :
      (q : String) (change : Statement D S (Option A)) (a : A) (d : D) (s : S)
      → change w.db w.sequences ≡ (ok (some a), d, s)
      → query_row q change w ≡ (ok a, record w { db = d; sequences = s })
  unfolding query_row statement settle scan_row
  query_row-some q change a d s h = rw (up.live, up.answered, h) (ground arith)

  pub query_row-none :
      (q : String) (change : Statement D S (Option A)) (d : D) (s : S)
      → change w.db w.sequences ≡ (ok none, d, s)
      → query_row q change w ≡ (err (custom q no_rows), record w { db = d; sequences = s })
  unfolding query_row statement settle scan_row
  query_row-none q change d s h = rw (up.live, up.answered, h) (ground arith)

  pub query-ok :
      (q : String) (change : Statement D S (List A)) (rows : List A) (d : D) (s : S)
      → change w.db w.sequences ≡ (ok rows, d, s)
      → query q change w ≡ (ok rows, record w { db = d; sequences = s })
  unfolding query stream statement settle relabel
  query-ok q change rows d s h =
      rw (up.live, up.answered, statement) (rw (up.live, up.answered, h) (ground arith))
