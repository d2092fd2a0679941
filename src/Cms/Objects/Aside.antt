-- ===== src/Cms/Objects/Aside.antt =====
-- `AddFsObject` of oiajudge/pkg/cmsbridge/submission.go and the tables that it leaves alone, whatever
-- PostgreSQL fails at.
use oiaj.Base.{ℕ, ◌≡◌, refl, ◌∙◌, List, [], ◌∷◌, map, select, arith, String}
use oiaj.Text.Bytes.{Bytes, bytes_eq}
use oiaj.Store.Errors.{ok}
use oiaj.Store.Action.{◌>>◌, pure, recover, >>=-state, recover-state}
use oiaj.Store.Session.{query}
use oiaj.Store.Session.Keeps.{statement-keeps, exec-keeps, query-keeps}
use oiaj.Cms.Tables.{CmsDb, CmsSequences, CmsWorld, Schema}
use oiaj.Cms.Platform.{Platform}
use oiaj.Cms.Objects.{
  create_object, touch_object, deferring, write_object, name_object, insert_object, fill_object,
  store_object, use_digests, add_fs_object,
}

-- Another part of the database has changed.
pub record IsAside {F : Type 0} (d d' : CmsDb F) : Type 0 where
  pub submissions : d'.submissions ≡ d.submissions
  pub queue : d'.queue ≡ d.queue
  pub files : d'.files ≡ d.files

module _ {F : Type 0} (go : Platform F) (schema : Schema F) (d0 : CmsDb F) where
  abbrev Aside : CmsWorld F → Type 0
  Aside w = IsAside d0 w.db

  abbrev Beside : CmsDb F → CmsSequences → Type 0
  Beside d s = IsAside d0 d

  beside :
      (d d' : CmsDb F)
      → d'.submissions ≡ d.submissions
      → d'.queue ≡ d.queue
      → d'.files ≡ d.files
      → IsAside d0 d
      → IsAside d0 d'
  beside d d' submissions queue files h = record {
    submissions = submissions ∙ h.submissions;
    queue = queue ∙ h.queue;
    files = files ∙ h.files;
  }

  touch_object-IsAside : (w : CmsWorld F) → Aside w → Aside (touch_object w).1
  unfolding touch_object
  touch_object-IsAside w h = statement-keeps Beside _ w h h h

  write_object-IsAside :
      (oid : ℕ) (content : Bytes) (w : CmsWorld F)
      → Aside w
      → Aside (write_object go oid content w).1
  unfolding write_object
  write_object-IsAside oid content w h =
      statement-keeps Beside _ w h h (beside w.db _ refl refl refl h)

  name_object-IsAside :
      (digest : Bytes) (oid : ℕ) (w : CmsWorld F)
      → Aside w
      → Aside (name_object schema digest oid w).1
  unfolding name_object insert_object
  name_object-IsAside digest oid w h = exec-keeps Beside w _ (insert_object schema digest oid) h h (
      beside w.db (insert_object schema digest oid w.db w.sequences).1 (ground arith) (ground arith)
        (ground arith) h)

  fill_object-IsAside :
      (digest content : Bytes) (oid : ℕ) (w : CmsWorld F)
      → Aside w
      → Aside (fill_object go schema digest content oid w).1
  unfolding fill_object deferring
  fill_object-IsAside digest content oid w h =
      let write = recover (write_object go oid content) (λ e. pure tt) in
      let opened = touch_object-IsAside w h in
      >>=-state Aside touch_object
        (λ _. deferring touch_object (write >> name_object schema digest oid)) w opened
        λ u.
          let w1 = (touch_object w).1 in
          let wrote =
            recover-state Aside (write_object go oid content) (λ e. pure tt) w1
              (write_object-IsAside oid content w1 opened)
              λ e. write_object-IsAside oid content w1 opened in
          touch_object-IsAside _ (
            >>=-state Aside write (λ _. name_object schema digest oid) w1 wrote
              λ v. name_object-IsAside digest oid _ wrote)

  store_object-IsAside :
      (digest content : Bytes) (w : CmsWorld F)
      → Aside w
      → Aside (store_object go schema digest content w).1
  unfolding store_object create_object
  store_object-IsAside digest content w h =
      let drew = statement-keeps Beside _ w h h h in
      >>=-state Aside create_object (λ oid. fill_object go schema digest content oid >> pure digest)
        w drew
        λ oid.
          let filled = fill_object-IsAside digest content oid _ drew in
          >>=-state Aside (fill_object go schema digest content oid) (λ _. pure digest) _ filled
            λ u. filled

  use_digests-IsAside :
      (digest content : Bytes) (found : List Bytes) (w : CmsWorld F)
      → Aside w
      → Aside (use_digests go schema digest content found w).1
  unfolding use_digests
  use_digests-IsAside digest content [] w h = store_object-IsAside digest content w h
  use_digests-IsAside digest content (f ∷ found) w h = h

  pub add_fs_object-IsAside :
      (content : Bytes) (w : CmsWorld F) → Aside w → Aside (add_fs_object go schema content w).1
  unfolding add_fs_object
  add_fs_object-IsAside content w h =
      let value = λ (d : CmsDb F).
        ok (map (λ o. o.digest) (select (λ o. bytes_eq o.digest (go.digest content)) d.objects)) in
      let text : String = "SELECT digest FROM fsobjects WHERE digest = $1" in
      let read = query-keeps Beside w text value h in
      >>=-state Aside (query text (λ d s. (value d, d, s)))
        (use_digests go schema (go.digest content) content) w read
        λ found. use_digests-IsAside (go.digest content) content found _ read
