-- ===== src/Store/Migrations/Twice.antt =====
-- A second start of a program: `MakeClientWithInitScript` of oiajudge/pkg/store/store.go on a
-- database that it has seen.
use oiaj.Base.{
  ◌≡◌, refl, sym, ap, ◌∙◌, true, false, Option, none, some, List, [], ◌∷◌, map, All, arith,
  if◌then◌else◌, String,
}
use mathlib.Core.Path.{subst}
use oiaj.Text.Bytes.{Bytes, bytes_eq}
use oiaj.Store.Errors.{is_no_rows, ok}
use oiaj.Store.Action.{◌>>=◌, ◌>>◌, pure, throw, >>=-ok, >>=-inv, recover-ok}
use oiaj.Store.Session.{World, Statement, exec, statement}
use oiaj.Store.Session.Laws.{IsUp, exec-ok, query_row-some}
use oiaj.Store.Session.Atomic.{started, with_tx-ok}
use oiaj.Store.Session.Finish.{with_tx-up}
use oiaj.Store.Migrations.{
  Versioned, script_of, listed, open_table, find_version, select_version, has_version, run_script,
  apply_version, apply_versions, make_client,
}
use oiaj.Store.Migrations.Applied.{has, any-first, apply_versions-inv}

module _ {T S : Type 0} (run : Bytes → Statement T S Unit) where
  find_again :
      (k : Bytes) (o : Option (List Bytes))
      → has k o ≡ true
      → (v : Bytes) × (find_version k o ≡ ok (some v))
  unfolding has find_version
  find_again k none h = absurd (ground arith)
  find_again k (some vs) h =
      let (v, found) = any-first (bytes_eq k) vs h in (v, ap (λ o. ok o) found)

  apply_again :
      (init_sql : List (Bytes × Bytes)) (k : Bytes) (w : World (Versioned T) S)
      → IsUp w
      → has k w.db.versions ≡ true
      → apply_version run init_sql k w ≡ (ok tt, w)
  unfolding apply_version has_version select_version run_script
  apply_again init_sql k w up h =
      let (v, found) = find_again k w.db.versions h in
      let selected =
        query_row-some w up "SELECT version FROM migrations WHERE version = $1"
          (λ d s. (find_version k d.versions, d, s)) v w.db w.sequences
          (ap (λ r. (r, w.db, w.sequences)) found) in
      >>=-ok (has_version k) w (run_script run k (script_of k init_sql)) (
        recover-ok (do version ← select_version k; pure true) w
          (λ e. if is_no_rows e then pure false else throw e)
          (>>=-ok (select_version k) w (λ _. pure true) selected))

  rounds_again :
      (init_sql : List (Bytes × Bytes)) (keys : List Bytes) (w : World (Versioned T) S)
      → IsUp w
      → All (λ k. has k w.db.versions ≡ true) keys
      → apply_versions run init_sql keys w ≡ (ok tt, w)
  unfolding apply_versions
  rounds_again init_sql [] w up h = refl
  rounds_again init_sql (k ∷ keys) w up h =
      >>=-ok (apply_version run init_sql k) w (λ _. apply_versions run init_sql keys)
        (apply_again init_sql k w up h.0)
      ∙ rounds_again init_sql keys w up h.1

module _ {T S : Type 0} where
  open_table-some :
      (w : World (Versioned T) S)
      → (open_table w).1.aborted ≡ false
      → (vs : List Bytes) × ((open_table w).1.db.versions ≡ some vs)
  unfolding open_table exec statement
  open_table-some w live = (listed w.db.versions, ground arith)

  open_table_again :
      (vs : List Bytes) (w : World (Versioned T) S)
      → IsUp w
      → w.db.versions ≡ some vs
      → open_table w ≡ (ok tt, w)
  unfolding open_table listed
  open_table_again vs w up there =
      let same : record w.db { versions = some (listed w.db.versions) } ≡ w.db =
        ap (λ o. record w.db { versions = some (listed o) }) there
        ∙ ap (λ o. record w.db { versions = o }) (sym there) in
      let text : String = "CREATE TABLE IF NOT EXISTS migrations (version TEXT PRIMARY KEY)" in
      let create : Statement (Versioned T) S Unit =
        λ d s. (ok tt, record d { versions = some (listed d.versions) }, s) in
      recover-ok (exec text create) w (λ e. pure tt)
        (exec-ok w up text create (record w.db { versions = some (listed w.db.versions) })
          w.sequences refl)
      ∙ ap (λ (d : Versioned T). (ok tt, record w { db = d })) same

has-some :
    (k : Bytes) (o : Option (List Bytes)) → has k o ≡ true → (vs : List Bytes) × (o ≡ some vs)
unfolding has
has-some k none h = absurd (ground arith)
has-some k (some vs) h = (vs, refl)

module _ {T S : Type 0} (run : Bytes → Statement T S Unit) (init_sql : List (Bytes × Bytes)) where
  -- A start that has gone through leaves the table of versions with every name in it.
  pub applied :
      (keys : List Bytes) (w w' : World (Versioned T) S)
      → (open_table >> apply_versions run init_sql keys) w ≡ (ok tt, w')
      → w'.aborted ≡ false
      → All (λ k. has k w'.db.versions ≡ true) keys
        × ((vs : List Bytes) × (w'.db.versions ≡ some vs))
  unfolding apply_versions
  applied [] w w' ran live =
      let (u, w1, opened, rest) = >>=-inv open_table (λ _. apply_versions run init_sql []) w ran in
      let same : (open_table w).1 ≡ w' = ap (λ x. x.1) opened ∙ ap (λ x. x.1) rest in
      let (vs, there) = open_table-some w (ap (λ x. x.aborted) same ∙ live) in
      (tt, (vs, ap (λ x. x.db.versions) (sym same) ∙ there))
  applied (k ∷ keys) w w' ran live =
      let (u, w1, opened, rest) =
        >>=-inv open_table (λ _. apply_versions run init_sql (k ∷ keys)) w ran in
      let (stand, grow) = apply_versions-inv run init_sql (k ∷ keys) w1 w' rest in
      (stand, has-some k w'.db.versions stand.0)

  -- After a start that returned without an error, whatever was scheduled, a second one that
  -- PostgreSQL answers runs no script: it changes nothing, whatever the scripts would do.
  pub make_client_again :
      (sort_keys : List Bytes → List Bytes) (w w1 : World (Versioned T) S)
      → make_client run sort_keys init_sql w ≡ (ok tt, w1)
      → w1.schedule ≡ []
      → make_client run sort_keys init_sql w1 ≡ (ok tt, record w1 { aborted = false })
  unfolding make_client
  make_client_again sort_keys w w1 ran quiet =
      let keys = sort_keys (map (λ x. x.0) init_sql) in
      let body = open_table >> apply_versions run init_sql keys in
      let (returned, committed) = with_tx-ok body w tt (ap (λ x. x.0) ran) in
      let w2 = (body (started w)).1 in
      let last : w1.db ≡ w2.db = ap (λ x. x.1.db) (sym ran) ∙ committed.0 in
      let versions = ap (λ d. d.versions) (sym last) in
      let (stand, (vs, there)) =
        applied keys (started w) w2 (ap (λ o. (o, w2)) returned) committed.1 in
      let w0 : World (Versioned T) S = record w1 { aborted = false } in
      let up : IsUp w0 = record { answered = quiet; live = refl } in
      with_tx-up body w1 w0 tt quiet
        (>>=-ok open_table w0 (λ _. apply_versions run init_sql keys)
            (open_table_again vs w0 up (ap (λ d. d.versions) last ∙ there))
          ∙ rounds_again run init_sql keys w0 up
              (subst (λ o. All (λ k. has k o ≡ true) keys) versions stand))
        up
