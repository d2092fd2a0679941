-- ===== src/Store/Session/Inverse.antt =====
-- What has happened when a statement of a transaction returns, whatever is scheduled.
use mathlib.Core.Option
use oiaj.Base.{
  String, ◌≡◌, ◌≢◌, refl, true, false, Option, none, some, List, arith, Bool-cases, Option-cases,
  inl, inr,
}
use oiaj.Store.Errors.{Error, exec_failed, is_no_rows, Outcome, ok, err, panic}
use oiaj.Store.Session.{
  World, Statement, statement, exec, query_row, query, stream, rows_before, settle, relabel,
  scan_row, pass, next_fault,
}

module _ {D S A : Type 0} (w w' : World D S) where
  settle-ok :
      (x : Outcome A × D × S) (w0 : World D S) (a : A)
      → settle x w0 ≡ (ok a, w')
      → (d : D) × (s : S) × (x ≡ (ok a, d, s)) × (w' ≡ record w0 { db = d; sequences = s })
  unfolding settle
  settle-ok (ok b, d, s) w0 a h = (d, s, ground arith, ground arith)
  settle-ok (err e, d, s) w0 a h = ground arith
  settle-ok (panic m, d, s) w0 a h = ground arith

  pub statement-inv :
      (change : Statement D S A) (a : A)
      → statement change w ≡ (ok a, w')
      → (d : D) × (s : S) × (change w.db w.sequences ≡ (ok a, d, s))
        × (w' ≡ record (pass w) { db = d; sequences = s })
        × (w.aborted ≡ false)
  unfolding statement
  statement-inv change a h = elim (Bool-cases w.aborted) [
    | inl failed ↦ absurd (ground arith)
    | inr live ↦ elim (Option-cases (next_fault w)) [
      | inl none_due ↦
          let (d, s, e, f) =
            settle-ok (change w.db w.sequences) (pass w) a (rw (live, none_due) at h) in
          (d, s, e, f, live)
      | inr (f, due) ↦ absurd (ground arith)
    ]
  ]

  scan_row-ok :
      (q : String) (x : Outcome (Option A) × World D S) (a : A)
      → scan_row q x ≡ (ok a, w')
      → x ≡ (ok (some a), w')
  unfolding scan_row
  scan_row-ok q (ok (some b), w0) a h = ground arith
  scan_row-ok q (ok none, w0) a h = ground arith
  scan_row-ok q (err e, w0) a h = ground arith
  scan_row-ok q (panic m, w0) a h = ground arith

module _ {D S A : Type 0} (w w' : World D S) where
  pub query_row-inv :
      (q : String) (change : Statement D S (Option A)) (a : A)
      → query_row q change w ≡ (ok a, w')
      → (d : D) × (s : S) × (change w.db w.sequences ≡ (ok (some a), d, s))
        × (w' ≡ record (pass w) { db = d; sequences = s })
        × (w.aborted ≡ false)
  unfolding query_row
  query_row-inv q change a h =
      statement-inv w w' change (some a) (scan_row-ok w w' q (statement change w) a h)

module _ {D S : Type 0} (w : World D S) where
  -- A statement that leaves the transaction alive has been carried out.
  pub exec-live :
      (q : String) (change : Statement D S Unit) (d : D) (s : S)
      → change w.db w.sequences ≡ (ok tt, d, s)
      → (exec q change w).1.aborted ≡ false
      → exec q change w ≡ (ok tt, record (pass w) { db = d; sequences = s })
  unfolding exec statement settle relabel
  exec-live q change d s h live = ground arith

map-some :
    {A B : Type 0} (f : B → A) (o : Option B) (a : A)
    → Option.map f o ≡ some a
    → (b : B) × (o ≡ some b) × (f b ≡ a)
map-some f none a h = ground arith
map-some f (some b) a h = (b, refl, ground arith)

module _ {D S A B : Type 0} (w w' : World D S) where
  -- A SELECT of one row has found the row, and changes nothing.
  pub select-inv :
      (q : String) (f : B → A) (pick : D → Option B) (a : A)
      → query_row q (λ d s. (ok (Option.map f (pick d)), d, s)) w ≡ (ok a, w')
      → (b : B) × (pick w.db ≡ some b) × (f b ≡ a) × (w' ≡ pass w) × (w.aborted ≡ false)
  select-inv q f pick a h =
      let (d, s, e, same, live) =
        query_row-inv w w' q (λ d s. (ok (Option.map f (pick d)), d, s)) a h in
      let (b, found, value) = map-some f (pick w.db) a (ground arith) in
      (b, found, value, ground arith, live)

-- A statement that only looks.
abbrev pub looks : {D S A B : Type 0} → (B → A) → (D → B) → Statement D S A
looks f pick d s = (ok (f (pick d)), d, s)

module _ {D S : Type 0} (w w' : World D S) where
  relabel-ok :
      {A : Type 0} (f : Error → Error) (x : Outcome A × World D S) (a : A)
      → relabel f x ≡ (ok a, w')
      → x ≡ (ok a, w')
  unfolding relabel
  relabel-ok f (ok b, w0) a h = h
  relabel-ok f (err e, w0) a h = ground arith
  relabel-ok f (panic m, w0) a h = ground arith

  pub exec-inv :
      (q : String) (change : Statement D S Unit)
      → exec q change w ≡ (ok tt, w')
      → (d : D) × (s : S) × (change w.db w.sequences ≡ (ok tt, d, s))
        × (w' ≡ record (pass w) { db = d; sequences = s })
        × (w.aborted ≡ false)
  unfolding exec
  exec-inv q change h =
      statement-inv w w' change tt (relabel-ok (exec_failed q) (statement change w) tt h)

module _ {D S A B : Type 0} (w : World D S) (f : Option B → Option A) (pick : D → Option B) where
  -- A SELECT of one row leaves the tables alone and does not panic.
  pub look-db : (q : String) → (query_row q (looks f pick) w).1.db ≡ w.db
  unfolding query_row statement settle scan_row
  look-db q = ground arith

  pub look-calm :
      (q : String) (m : String) (w' : World D S) → query_row q (looks f pick) w ≢ (panic m, w')
  unfolding query_row statement settle scan_row
  look-calm q m w' h = ground arith

  -- Where it reports that there is no row, there is none, and the transaction goes on.
  pub look-missing :
      (q : String) (e : Error) (w' : World D S)
      → query_row q (looks f pick) w ≡ (err e, w')
      → is_no_rows e ≡ true
      → (f (pick w.db) ≡ none) × (w' ≡ pass w) × (w.aborted ≡ false)
  unfolding query_row statement settle scan_row is_no_rows
  look-missing q e w' h k = ground arith

  -- After any other error the transaction is lost.
  pub look-failed :
      (q : String) (e : Error) (w' : World D S)
      → query_row q (looks f pick) w ≡ (err e, w')
      → is_no_rows e ≡ false
      → w'.aborted ≡ true
  unfolding query_row statement settle scan_row is_no_rows
  look-failed q e w' h k = ground arith

module _ {D S A B : Type 0} (w : World D S) (f : List B → List A) (pick : D → List B) where
  pub scan-db : (q : String) → (query q (looks f pick) w).1.db ≡ w.db
  unfolding query stream rows_before statement settle relabel
  scan-db q = ground arith

  pub scan-calm :
      (q : String) (m : String) (w' : World D S) → query q (looks f pick) w ≢ (panic m, w')
  unfolding query stream rows_before statement settle relabel
  scan-calm q m w' h = ground arith

  -- Rows of a transaction that is still alive are all the rows.
  pub scan-inv :
      (q : String) (rows : List A) (w' : World D S)
      → query q (looks f pick) w ≡ (ok rows, w')
      → w'.aborted ≡ false
      → (rows ≡ f (pick w.db)) × (w' ≡ pass w)
  unfolding query stream rows_before statement settle relabel
  scan-inv q rows w' h live = ground arith
