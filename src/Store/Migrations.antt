-- ===== src/Store/Migrations.antt =====
-- `MakeClientWithInitScript` of oiajudge/pkg/store/store.go: the scripts that a program runs on its
-- database when it starts.
pub mod Applied
pub mod Twice
use oiaj.Base.{
  ℕ, Bool, true, false, ◌&&◌, Option, none, some, List, [], ◌∷◌, ◌++◌, map, first, any, ◌==◌,
  if◌then◌else◌,
}
use oiaj.Text.Bytes.{Bytes, bytes_eq, extend_head}
use oiaj.Store.Errors.{
  Error, undefined_table, unique_violation, is_no_rows, Outcome, ok, err, panic,
}
use oiaj.Store.Action.{◌>>=◌, ◌>>◌, pure, throw, recover}
use oiaj.Store.Session.{World, Tx, Statement, exec, query_row, with_tx}

-- The table of versions, once it is there, and all others.
pub record Versioned (T : Type 0) : Type 0 where
  pub versions : Option (List Bytes)
  pub tables : T

-- `strings.Split(sql, ";;")`
unfoldable pub parts : Bytes → List Bytes
parts [] = [] ∷ []
parts (c ∷ []) = (c ∷ []) ∷ []
parts (c ∷ e ∷ s) =
    let after = parts s in
    let rest = parts (e ∷ s) in if (c == 59) && (e == 59) then [] ∷ after else extend_head c rest

-- `init_sql[k]`
unfoldable pub script_of : Bytes → List (Bytes × Bytes) → Bytes
script_of k [] = []
script_of k ((name, sql) ∷ rest) =
    let later = script_of k rest in if bytes_eq name k then sql else later

listed : Option (List Bytes) → List Bytes
listed none = []
listed (some vs) = vs

find_version : Bytes → Option (List Bytes) → Outcome (Option Bytes)
find_version k none = err undefined_table
find_version k (some vs) = ok (first (bytes_eq k) vs)

module _ {T S : Type 0} where
  -- The error of this statement is dropped.
  unfoldable pub open_table : Tx (Versioned T) S Unit
  unfolding listed
  open_table =
      recover
        (exec "CREATE TABLE IF NOT EXISTS migrations (version TEXT PRIMARY KEY)"
          λ d s. (ok tt, record d { versions = some (listed d.versions) }, s))
        (λ e. pure tt)

  unfoldable pub select_version : Bytes → Tx (Versioned T) S Bytes
  unfolding find_version
  select_version k =
      query_row "SELECT version FROM migrations WHERE version = $1"
        λ d s. (find_version k d.versions, d, s)

  on_tables : Outcome Unit × T × S → Versioned T → Outcome Unit × Versioned T × S
  on_tables (r, t, s) d = (r, record d { tables = t }, s)

  insert_into : Bytes → Option (List Bytes) → Statement (Versioned T) S Unit
  insert_into k none d s = (err undefined_table, d, s)
  insert_into k (some vs) d s =
      if any (bytes_eq k) vs
      then (err unique_violation, d, s)
      else (ok tt, record d { versions = some (vs ++ k ∷ []) }, s)

  insert_version : Bytes → Statement (Versioned T) S Unit
  unfolding insert_into
  insert_version k d s = insert_into k d.versions d s

  unfoldable pub record_version : Bytes → Tx (Versioned T) S Unit
  unfolding insert_version
  record_version k = exec "INSERT INTO migrations(version) VALUES ($1)" (insert_version k)

  -- Whether a version is there; any error but that there is no row ends the function.
  unfoldable pub has_version : Bytes → Tx (Versioned T) S Bool
  unfolding select_version is_no_rows
  has_version k =
      recover (do version ← select_version k; pure true)
        (λ e. if is_no_rows e then pure false else throw e)

-- `run` is what PostgreSQL makes of a text, on other tables than that of the versions.
module _ {T S : Type 0} (run : Bytes → Statement T S Unit) where
  unfoldable pub run_part : Bytes → Tx (Versioned T) S Unit
  unfolding on_tables
  run_part part = exec "a part of a script" (λ d s. on_tables (run part d.tables s) d)

  unfoldable pub run_parts : List Bytes → Tx (Versioned T) S Unit
  unfolding run_part
  run_parts [] = pure tt
  run_parts (part ∷ rest) = run_part part >> run_parts rest

  unfoldable pub run_script : Bytes → Bytes → Bool → Tx (Versioned T) S Unit
  unfolding run_parts parts record_version
  run_script k sql true = pure tt
  run_script k sql false = run_parts (parts sql) >> record_version k

  -- One round of the loop over the names.
  unfoldable pub apply_version : List (Bytes × Bytes) → Bytes → Tx (Versioned T) S Unit
  unfolding has_version run_script script_of
  apply_version init_sql k = do found ← has_version k; run_script k (script_of k init_sql) found

  unfoldable pub apply_versions : List (Bytes × Bytes) → List Bytes → Tx (Versioned T) S Unit
  unfolding apply_version
  apply_versions init_sql [] = pure tt
  apply_versions init_sql (k ∷ keys) = apply_version init_sql k >> apply_versions init_sql keys

  -- `MakeClientWithInitScript`, once the pool is there; `sort_keys` is the call of `sort.Slice`.
  unfoldable pub make_client :
      (List Bytes → List Bytes) → List (Bytes × Bytes) → Tx (Versioned T) S Unit
  unfolding open_table apply_versions
  make_client sort_keys init_sql =
      with_tx (open_table >> apply_versions init_sql (sort_keys (map (λ x. x.0) init_sql)))
