-- ===== src/Store/Embedded/Names.antt =====
-- The names that `ExtractEmbeddedFsIntoFileMap` of oiajudge/pkg/utils/embed.go puts into its map.
use oiaj.Base.{
  ◌≡◌, sym, ap, ◌∙◌, ◌⊎◌, inl, inr, true, List, [], ◌∷◌, map, any, All, arith, Bool-cases,
}
use oiaj.Text.Bytes.{Bytes, bytes_eq, bytes_eq_refl, bytes_eq_sound}
use oiaj.Store.Errors.{Outcome, ok, err, panic, Outcome-cases}
use oiaj.Store.Embedded.{
  Entry, Fs, put_file, read_entry, add_entry, add_entries, read_entries,
  extract_embedded_fs_into_file_map,
}

abbrev names : List (Bytes × Bytes) → List Bytes
names files = map (λ x. x.0) files

put_file-has :
    (name content : Bytes) (files : List (Bytes × Bytes))
    → any (bytes_eq name) (names (put_file name content files)) ≡ true
unfolding put_file
put_file-has name content [] = ground (arith, bytes_eq_refl name)
put_file-has name content ((k, v) ∷ files) = elim (Bool-cases (bytes_eq k name)) [
  | inl same ↦ rw same (ground (arith, bytes_eq_refl name, bytes_eq_sound k name same))
  | inr other ↦ rw other (ground (arith, put_file-has name content files))
]

put_file-keeps :
    (name content k : Bytes) (files : List (Bytes × Bytes))
    → any (bytes_eq k) (names files) ≡ true
    → any (bytes_eq k) (names (put_file name content files)) ≡ true
unfolding put_file
put_file-keeps name content k [] h = absurd (ground arith)
put_file-keeps name content k ((n, v) ∷ files) h = elim (Bool-cases (bytes_eq n name)) [
  | inl same ↦ rw same h
  | inr other ↦ rw other (ground (arith, put_file-keeps name content k files))
]

-- An entry that is no directory has its name among these.
abbrev IsListed : List (Bytes × Bytes) → Entry → Type 0
IsListed files e = (e.is_dir ≡ true) ⊎ (any (bytes_eq e.name) (names files) ≡ true)

module _ (fs : Fs) (dir : Bytes) where
  read_entry-inv :
      (name : Bytes) (read : Outcome Bytes) (files files' : List (Bytes × Bytes))
      → read_entry fs dir name read files ≡ ok files'
      → (content : Bytes) × (put_file name content files ≡ files')
  unfolding read_entry
  read_entry-inv name (ok content) files files' h = (content, ground arith)
  read_entry-inv name (err e) files files' h = absurd (ground arith)
  read_entry-inv name (panic m) files files' h = absurd (ground arith)

  add_entry-IsListed :
      (e : Entry) (files files' : List (Bytes × Bytes))
      → add_entry fs dir e files ≡ ok files'
      → IsListed files' e
  unfolding add_entry
  add_entry-IsListed e files files' h = elim (Bool-cases e.is_dir) [
    | inl dir ↦ inl dir
    | inr plain ↦
        let (content, put) = read_entry-inv e.name _ files files' (rw plain at h) in
        inr
          (ap (λ x. any (bytes_eq e.name) (names x)) (sym put) ∙ put_file-has e.name content files)
  ]

  add_entry-keeps :
      (e : Entry) (k : Bytes) (files files' : List (Bytes × Bytes))
      → add_entry fs dir e files ≡ ok files'
      → any (bytes_eq k) (names files) ≡ true
      → any (bytes_eq k) (names files') ≡ true
  unfolding add_entry
  add_entry-keeps e k files files' h there = elim (Bool-cases e.is_dir) [
    | inl dir ↦
        let same : files ≡ files' = ground arith in
        ap (λ x. any (bytes_eq k) (names x)) (sym same) ∙ there
    | inr plain ↦
        let (content, put) = read_entry-inv e.name _ files files' (rw plain at h) in
        ap (λ x. any (bytes_eq k) (names x)) (sym put) ∙ put_file-keeps e.name content k files there
  ]

  add_entries-inv :
      (e : Entry) (entries : List Entry) (files sql : List (Bytes × Bytes))
      → add_entries fs dir (e ∷ entries) (ok files) ≡ ok sql
      → (files' : List (Bytes × Bytes)) × (add_entry fs dir e files ≡ ok files')
        × (add_entries fs dir entries (ok files') ≡ ok sql)
  unfolding add_entries
  add_entries-inv e entries files sql h = elim (Outcome-cases (add_entry fs dir e files)) [
    | inl (files', added) ↦ (files', added, sym (ap (add_entries fs dir entries) added) ∙ h)
    | inr (inl (x, failed)) ↦
        let stopped = sym (ap (add_entries fs dir entries) failed) ∙ h in absurd (ground arith)
    | inr (inr (m, failed)) ↦
        let stopped = sym (ap (add_entries fs dir entries) failed) ∙ h in absurd (ground arith)
  ]

  add_entries-keeps :
      (entries : List Entry) (k : Bytes) (files sql : List (Bytes × Bytes))
      → add_entries fs dir entries (ok files) ≡ ok sql
      → any (bytes_eq k) (names files) ≡ true
      → any (bytes_eq k) (names sql) ≡ true
  unfolding add_entries
  add_entries-keeps [] k files sql h there =
      let same : files ≡ sql = ground arith in
      ap (λ x. any (bytes_eq k) (names x)) (sym same) ∙ there
  add_entries-keeps (e ∷ entries) k files sql h there =
      let (files', added, rest) = add_entries-inv e entries files sql h in
      add_entries-keeps entries k files' sql rest (add_entry-keeps e k files files' added there)

  still-IsListed :
      (e : Entry) (entries : List Entry) (files sql : List (Bytes × Bytes))
      → add_entries fs dir entries (ok files) ≡ ok sql
      → IsListed files e
      → IsListed sql e
  still-IsListed e entries files sql h (inl dir) = inl dir
  still-IsListed e entries files sql h (inr there) =
      inr (add_entries-keeps entries e.name files sql h there)

  add_entries-IsListed :
      (entries : List Entry) (files sql : List (Bytes × Bytes))
      → add_entries fs dir entries (ok files) ≡ ok sql
      → All (IsListed sql) entries
  add_entries-IsListed [] files sql h = tt
  add_entries-IsListed (e ∷ entries) files sql h =
      let (files', added, rest) = add_entries-inv e entries files sql h in
      (
        still-IsListed e entries files' sql rest (add_entry-IsListed e files files' added),
        add_entries-IsListed entries files' sql rest,
      )

  -- Where the files could be read, each entry of the directory but its directories has its name in
  -- the map.
  pub extract-IsListed :
      (sql : List (Bytes × Bytes))
      → extract_embedded_fs_into_file_map fs dir ≡ ok sql
      → (entries : List Entry) × (fs.read_dir dir ≡ ok entries) × All (IsListed sql) entries
  unfolding extract_embedded_fs_into_file_map read_entries
  extract-IsListed sql h = elim (Outcome-cases (fs.read_dir dir)) [
    | inl (entries, read) ↦ (entries, read, add_entries-IsListed entries [] sql (rw read at h))
    | inr (inl (x, failed)) ↦ absurd (let k = rw failed at h in ground arith)
    | inr (inr (m, failed)) ↦ absurd (let k = rw failed at h in ground arith)
  ]
