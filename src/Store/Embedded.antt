-- ===== src/Store/Embedded.antt =====
-- `ExtractEmbeddedFsIntoFileMap` of oiajudge/pkg/utils/embed.go: the scripts that are built into the
-- program.
pub mod Names
use oiaj.Base.{Bool, List, [], ◌∷◌, ◌++◌, if◌then◌else◌}
use oiaj.Text.Bytes.{Bytes, codes, bytes_eq}
use oiaj.Store.Errors.{Outcome, ok, err, panic}

-- A `fs.DirEntry`
pub record Entry : Type 0 where
  pub name : Bytes
  pub is_dir : Bool

-- An `embed.FS`
pub record Fs : Type 0 where
  pub read_dir : Bytes → Outcome (List Entry)
  pub read_file : Bytes → Outcome Bytes

-- `files[name] = content`
put_file : Bytes → Bytes → List (Bytes × Bytes) → List (Bytes × Bytes)
put_file name content [] = (name, content) ∷ []
put_file name content ((k, v) ∷ files) =
    let rest = put_file name content files in
    if bytes_eq k name then (k, content) ∷ files else (k, v) ∷ rest

module _ (fs : Fs) (dir : Bytes) where
  read_entry : Bytes → Outcome Bytes → List (Bytes × Bytes) → Outcome (List (Bytes × Bytes))
  unfolding put_file
  read_entry name (ok content) files = ok (put_file name content files)
  read_entry name (err e) files = err e
  read_entry name (panic m) files = panic m

  add_entry : Entry → List (Bytes × Bytes) → Outcome (List (Bytes × Bytes))
  unfolding read_entry
  add_entry entry files =
      if entry.is_dir
      then ok files
      else read_entry entry.name (fs.read_file (dir ++ codes "/" ++ entry.name)) files

  -- The loop over the entries.
  add_entries : List Entry → Outcome (List (Bytes × Bytes)) → Outcome (List (Bytes × Bytes))
  unfolding add_entry
  add_entries entries (err e) = err e
  add_entries entries (panic m) = panic m
  add_entries [] (ok files) = ok files
  add_entries (entry ∷ entries) (ok files) = add_entries entries (add_entry entry files)

  read_entries : Outcome (List Entry) → Outcome (List (Bytes × Bytes))
  unfolding add_entries
  read_entries (ok entries) = add_entries entries (ok [])
  read_entries (err e) = err e
  read_entries (panic m) = panic m

  -- `ExtractEmbeddedFsIntoFileMap`
  unfoldable pub extract_embedded_fs_into_file_map : Outcome (List (Bytes × Bytes))
  unfolding read_entries
  extract_embedded_fs_into_file_map = read_entries (fs.read_dir dir)
