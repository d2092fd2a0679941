-- ===== src/Cms/Objects/Kept.antt =====
-- The soundness of the file store through `AddFsObject` and `MakeSubmission` of
-- oiajudge/pkg/cmsbridge/submission.go.
use oiaj.Base.{ℕ, ◌+◌, ◌≤◌, ◌≡◌, refl, sym, ap, inl, inr, List, [], ◌∷◌, arith, map, select, String}
use mathlib.Core.Path.{subst}
use oiaj.Base.Int.{ℤ}
use oiaj.Text.Bytes.{Bytes, bytes_eq}
use oiaj.Bridge.{ObjectId, Sources}
use oiaj.Store.Errors.{ok}
use oiaj.Store.Action.{◌>>◌, pure, >>=-state, >>=-ok, >>=-failed}
use oiaj.Store.Session.{query}
use oiaj.Cms.Tables.{FileRow, CmsDb, CmsSequences, CmsWorld, Schema}
use oiaj.Cms.Platform.{Platform}
use oiaj.Cms.Objects.{
  join_all, create_object, fill_object, store_object, use_digests, add_fs_object, add_file,
  insert_file, add_files, new_submission, insert_submission, make_submission,
}
use oiaj.Store.Session.Keeps.{exec-keeps, query_row-keeps, query-keeps}
use oiaj.Cms.Queue.{enqueue}
use oiaj.Cms.Objects.Pages.{IsSound}
use oiaj.Cms.Objects.Stored.{IsStored, unmoved, create_object-cases, fill_object-IsStored}

module _ {F : Type 0} (go : Platform F) (schema : Schema F)
    (law : (c : Bytes) → join_all (λ p. p) (go.pages_of c) ≡ c) (n0 : ℕ) where
  abbrev Stored : CmsWorld F → Type 0
  Stored w = IsStored go n0 w

  store_object-IsStored :
      (content : Bytes) (w : CmsWorld F)
      → Stored w
      → Stored (store_object go schema (go.digest content) content w).1
  unfolding store_object
  store_object-IsStored content w h =
      let digest = go.digest content in
      let rest = λ (oid : ℕ). fill_object go schema digest content oid >> pure digest in
      elim (create_object-cases w) [
        | inl (e, w1, failed, same) ↦
            subst Stored (sym (ap (λ x. x.1) (>>=-failed create_object w rest failed)))
              (unmoved go n0 w w1 same h)
        | inr (w1, drew, same, numbered) ↦
            let n = w.sequences.large_objects in
            let sound : IsSound go n w1.db = rw same h.sound in
            let filled =
              fill_object-IsStored go schema law n0 n content w1 h.drawn sound numbered in
            subst Stored (sym (ap (λ x. x.1) (>>=-ok create_object w rest drew))) (
              >>=-state Stored (fill_object go schema digest content (n + 1)) (λ _. pure digest) w1
                filled λ u. filled)
      ]

  use_digests-IsStored :
      (content : Bytes) (found : List Bytes) (w : CmsWorld F)
      → Stored w
      → Stored (use_digests go schema (go.digest content) content found w).1
  unfolding use_digests
  use_digests-IsStored content [] w h = store_object-IsStored content w h
  use_digests-IsStored content (f ∷ found) w h = h

  -- The same, as a property of the tables and the sequences.
  abbrev Tables : CmsDb F → CmsSequences → Type 0
  Tables d s = (n0 ≤ s.large_objects) × IsSound go s.large_objects d

  packed : (w : CmsWorld F) → Tables w.db w.sequences → Stored w
  packed w h = record { drawn = h.0; sound = h.1 }

  -- A change of other tables and other sequences.
  elsewhere :
      (d d' : CmsDb F) (s s' : CmsSequences)
      → d'.pages ≡ d.pages
      → d'.objects ≡ d.objects
      → s'.large_objects ≡ s.large_objects
      → Tables d s
      → Tables d' s'
  elsewhere d d' s s' pages objects numbers h = (
    rw numbers h.0,
    record {
      below = rw (numbers, pages) h.1.below;
      honest = rw (numbers, pages, objects) h.1.honest;
    },
  )

  add_fs_object-IsStored :
      (content : Bytes) (w : CmsWorld F) → Stored w → Stored (add_fs_object go schema content w).1
  unfolding add_fs_object
  add_fs_object-IsStored content w h =
      let value = λ (d : CmsDb F).
        ok (map (λ o. o.digest) (select (λ o. bytes_eq o.digest (go.digest content)) d.objects)) in
      let text : String = "SELECT digest FROM fsobjects WHERE digest = $1" in
      let read = packed _ (query-keeps Tables w text value (h.drawn, h.sound)) in
      >>=-state Stored (query text (λ d s. (value d, d, s)))
        (use_digests go schema (go.digest content) content) w read
        λ found. use_digests-IsStored content found _ read

  add_file-IsStored :
      (sid : ObjectId) (filename digest : Bytes) (w : CmsWorld F)
      → Stored w
      → Stored (add_file schema sid filename digest w).1
  unfolding add_file insert_file
  add_file-IsStored sid filename digest w h =
      let row : FileRow = record { submission_id = sid; filename = filename; digest = digest } in
      let x = insert_file schema row w.db w.sequences in
      packed _ (
        exec-keeps Tables w _ (insert_file schema row) (h.drawn, h.sound)
          (elsewhere w.db w.db w.sequences x.2 refl refl (ground arith) (h.drawn, h.sound))
          (elsewhere w.db x.1 w.sequences x.2 (ground arith) (ground arith) (ground arith)
            (h.drawn, h.sound)))

  add_files-IsStored :
      (sid : ObjectId) (sources : Sources) (w : CmsWorld F)
      → Stored w
      → Stored (add_files go schema sid sources w).1
  unfolding add_files
  add_files-IsStored sid [] w h = h
  add_files-IsStored sid ((filename, content) ∷ sources) w h =
      let added = add_fs_object-IsStored content w h in
      >>=-state Stored (add_fs_object go schema content)
        (λ digest. add_file schema sid filename digest >> add_files go schema sid sources) w added
        λ digest.
          let linked = add_file-IsStored sid filename digest _ added in
          >>=-state Stored (add_file schema sid filename digest)
            (λ _. add_files go schema sid sources) _ linked
            λ u. add_files-IsStored sid sources _ linked

  new_submission-IsStored :
      (cid uid task_id : ObjectId) (now : ℤ) (w : CmsWorld F)
      → Stored w
      → Stored (new_submission schema cid uid task_id now w).1
  unfolding new_submission insert_submission enqueue
  new_submission-IsStored cid uid task_id now w h =
      let x = insert_submission schema cid uid task_id now w.db w.sequences in
      packed _ (
        query_row-keeps Tables w _ (insert_submission schema cid uid task_id now) (h.drawn, h.sound)
          (elsewhere w.db w.db w.sequences x.2 refl refl (ground arith) (h.drawn, h.sound))
          (elsewhere w.db x.1 w.sequences x.2 (ground arith) (ground arith) (ground arith)
            (h.drawn, h.sound)))

  pub make_submission-IsStored :
      (cid uid task_id : ObjectId) (sources : Sources) (now : ℤ) (w : CmsWorld F)
      → Stored w
      → Stored (make_submission go schema cid uid task_id sources now w).1
  unfolding make_submission
  make_submission-IsStored cid uid task_id sources now w h =
      let made = new_submission-IsStored cid uid task_id now w h in
      >>=-state Stored (new_submission schema cid uid task_id now)
        (λ sid. add_files go schema sid sources) w made λ sid. add_files-IsStored sid sources _ made
