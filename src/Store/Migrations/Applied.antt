-- ===== src/Store/Migrations/Applied.antt =====
-- What `MakeClientWithInitScript` of oiajudge/pkg/store/store.go leaves in the table of versions,
-- whatever PostgreSQL fails at.
use oiaj.Base.{
  ◌≡◌, refl, sym, ap, ◌∙◌, Bool, true, false, Option, none, some, List, [], ◌∷◌, ◌++◌, first, any,
  All, arith, if◌then◌else◌, inl, inr, Bool-cases, String,
}
use mathlib.Core.Path.{subst}
use oiaj.Text.Bytes.{Bytes, bytes_eq, bytes_eq_refl}
use oiaj.Store.Errors.{is_no_rows, ok}
use oiaj.Store.Action.{◌>>=◌, pure, throw, >>=-inv, >>=-state, recover-inv, recover-state}
use oiaj.Store.Session.{World, Statement, query_row}
use oiaj.Store.Session.Inverse.{exec-inv, query_row-inv}
use oiaj.Store.Session.Keeps.{exec-keeps, query_row-keeps}
use oiaj.Store.Migrations.{
  Versioned, parts, script_of, find_version, select_version, insert_version, insert_into,
  record_version, has_version, on_tables, run_part, run_parts, run_script, apply_version,
  apply_versions,
}

-- A version stands in its table.
unfoldable pub has : Bytes → Option (List Bytes) → Bool
has k none = false
has k (some vs) = any (bytes_eq k) vs

any-append :
    {A : Type 0} (p : A → Bool) (xs ys : List A) → any p xs ≡ true → any p (xs ++ ys) ≡ true
any-append p [] ys h = absurd (ground arith)
any-append p (x ∷ xs) ys h = ground (arith, any-append p xs ys)

any-snoc :
    {A : Type 0} (p : A → Bool) (xs : List A) (x : A) → p x ≡ true → any p (xs ++ x ∷ []) ≡ true
any-snoc p [] x h = ground arith
any-snoc p (y ∷ xs) x h = ground (arith, any-snoc p xs x h)

first-any :
    {A : Type 0} (p : A → Bool) (xs : List A) (x : A) → first p xs ≡ some x → any p xs ≡ true
first-any p [] x h = absurd (ground arith)
first-any p (y ∷ xs) x h = ground (arith, first-any p xs x)

pub any-first :
    {A : Type 0} (p : A → Bool) (xs : List A) → any p xs ≡ true → (x : A) × (first p xs ≡ some x)
any-first p [] h = absurd (ground arith)
any-first p (y ∷ xs) h = elim (Bool-cases (p y)) [
  | inl hit ↦ (y, ground (arith, hit))
  | inr miss ↦
      let (x, found) = any-first p xs (ground (arith, miss, h)) in (x, ground (arith, miss, found))
]

module _ {T S : Type 0} (run : Bytes → Statement T S Unit) where
  run_parts-versions :
      (ps : List Bytes) (w : World (Versioned T) S)
      → (run_parts run ps w).1.db.versions ≡ w.db.versions
  unfolding run_parts run_part on_tables
  run_parts-versions [] w = refl
  run_parts-versions (p ∷ ps) w =
      let P = λ (v : World (Versioned T) S). v.db.versions ≡ w.db.versions in
      let one =
        exec-keeps (λ d s. d.versions ≡ w.db.versions) w "a part of a script"
          (λ d s. on_tables (run p d.tables s) d) refl refl refl in
      >>=-state P (run_part run p) (λ _. run_parts run ps) w one
        λ u. run_parts-versions ps (run_part run p w).1 ∙ one

  -- No version leaves the table.
  abbrev pub Grows : World (Versioned T) S → World (Versioned T) S → Type 0
  Grows w w' = (j : Bytes) → has j w.db.versions ≡ true → has j w'.db.versions ≡ true

  insert_into-inv :
      (k : Bytes) (o : Option (List Bytes)) (d d' : Versioned T) (s s' : S)
      → insert_into k o d s ≡ (ok tt, d', s')
      → (has k d'.versions ≡ true) × ((j : Bytes) → has j o ≡ true → has j d'.versions ≡ true)
  unfolding insert_into has
  insert_into-inv k none d d' s s' ran = absurd (ground arith)
  insert_into-inv k (some vs) d d' s s' ran =
      let grown : some (vs ++ k ∷ []) ≡ d'.versions = ground arith in
      (
        subst (λ o. has k o ≡ true) grown (any-snoc (bytes_eq k) vs k (bytes_eq_refl k)),
        λ j h. subst (λ o. has j o ≡ true) grown (any-append (bytes_eq j) vs (k ∷ []) h),
      )

  record_version-inv :
      (k : Bytes) (w w' : World (Versioned T) S)
      → record_version k w ≡ (ok tt, w')
      → (has k w'.db.versions ≡ true) × Grows w w'
  unfolding record_version insert_version
  record_version-inv k w w' ran =
      let (d, s, changed, same, live) = exec-inv w w' _ (insert_version k) ran in
      let (stands, grows) = insert_into-inv k w.db.versions w.db d w.sequences s changed in
      let db = ap (λ x. x.db) (sym same) in
      (
        subst (λ x. has k x.versions ≡ true) db stands,
        λ j h. subst (λ x. has j x.versions ≡ true) db (grows j h),
      )

  find_version-has :
      (k : Bytes) (o : Option (List Bytes)) (v : Bytes)
      → find_version k o ≡ ok (some v)
      → has k o ≡ true
  unfolding find_version has
  find_version-has k none v h = absurd (ground arith)
  find_version-has k (some vs) v h = first-any (bytes_eq k) vs v (ground arith)

  has_version-db : (k : Bytes) (w : World (Versioned T) S) → (has_version k w).1.db ≡ w.db
  unfolding has_version select_version
  has_version-db k w =
      let P = λ (v : World (Versioned T) S). v.db ≡ w.db in
      let look : Statement (Versioned T) S (Option Bytes) =
        λ d s. (find_version k d.versions, d, s) in
      let text : String = "SELECT version FROM migrations WHERE version = $1" in
      let select : (query_row text look w).1.db ≡ w.db =
        query_row-keeps (λ d s. d ≡ w.db) w text look refl refl refl in
      let both = >>=-state P (query_row text look) (λ _. pure true) w select λ v. select in
      recover-state P (do version ← query_row text look; pure true)
        (λ e. if is_no_rows e then pure false else throw e) w both
        λ e. elim (Bool-cases (is_no_rows e)) [
          | inl missing ↦ rw missing both
          | inr other ↦ rw other both
        ]

  has_version-true :
      (k : Bytes) (w w' : World (Versioned T) S)
      → has_version k w ≡ (ok true, w')
      → has k w.db.versions ≡ true
  unfolding has_version select_version
  has_version-true k w w' ran =
      elim (recover-inv (do version ← select_version k; pure true)
        (λ e. if is_no_rows e then pure false else throw e) w true w' ran) [
          | inl found ↦
              let (v, w1, selected, rest) = >>=-inv (select_version k) (λ _. pure true) w found in
              let (d, s, looked, same, live) =
                query_row-inv w w1 "SELECT version FROM migrations WHERE version = $1"
                  (λ d s. (find_version k d.versions, d, s)) v selected in
              find_version-has k w.db.versions v (ap (λ x. x.0) looked)
          | inr (e, w1, failed, handled) ↦ absurd (elim (Bool-cases (is_no_rows e)) [
            | inl missing ↦ ground (arith, missing, handled)
            | inr other ↦ ground (arith, other, handled)
          ])
        ]

  run_script-inv :
      (k sql : Bytes) (found : Bool) (w w1 w' : World (Versioned T) S)
      → has_version k w ≡ (ok found, w1)
      → run_script run k sql found w1 ≡ (ok tt, w')
      → (has k w'.db.versions ≡ true) × Grows w w'
  unfolding run_script
  run_script-inv k sql true w w1 w' looked ran =
      let same : w'.db ≡ w.db =
        ap (λ x. x.1.db) (sym ran) ∙ ap (λ x. x.1.db) (sym looked) ∙ has_version-db k w in
      (rw same (has_version-true k w w1 looked), λ j h. rw same h)
  run_script-inv k sql false w w1 w' looked ran =
      let (u, w2, done, rest) =
        >>=-inv (run_parts run (parts sql)) (λ _. record_version k) w1 ran in
      let same : w2.db.versions ≡ w.db.versions =
        ap (λ x. x.1.db.versions) (sym done)
        ∙ run_parts-versions (parts sql) w1
        ∙ ap (λ x. x.1.db.versions) (sym looked)
        ∙ ap (λ d. d.versions) (has_version-db k w) in
      let (stands, grows) = record_version-inv k w2 w' rest in (stands, λ j h. grows j (rw same h))

  pub apply_versions-inv :
      (init_sql : List (Bytes × Bytes)) (keys : List Bytes) (w w' : World (Versioned T) S)
      → apply_versions run init_sql keys w ≡ (ok tt, w')
      → All (λ k. has k w'.db.versions ≡ true) keys × Grows w w'
  unfolding apply_versions apply_version
  apply_versions-inv init_sql [] w w' ran =
      (tt, λ j h. subst (λ x. has j x.db.versions ≡ true) (ap (λ x. x.1) ran) h)
  apply_versions-inv init_sql (k ∷ keys) w w' ran =
      let (u, w2, one, rest) =
        >>=-inv (apply_version run init_sql k) (λ _. apply_versions run init_sql keys) w ran in
      let (found, w1, looked, script) =
        >>=-inv (has_version k) (run_script run k (script_of k init_sql)) w one in
      let (stands, grows) = run_script-inv k (script_of k init_sql) found w w1 w2 looked script in
      let (all_stand, all_grow) = apply_versions-inv init_sql keys w2 w' rest in
      ((all_grow k stands, all_stand), λ j h. all_grow j (grows j h))
