-- ===== src/Cms/Files.antt =====
-- The files of submissions and tasks: what `MakeSubmission` of oiajudge/pkg/cmsbridge/impl.go leaves
-- in the file store, and what `GetAttachment` reads there.
use oiaj.Base.{◌≡◌, ap, inl, inr, List, arith, select}
use mathlib.Core.Path.{subst}
use oiaj.Text.Bytes.{Bytes}
use oiaj.Bridge.{ObjectId, Sources}
use oiaj.Store.Errors.{Outcome}
use oiaj.Store.Session.Atomic.{started}
use oiaj.Store.Session.Keeps.{with_tx-parts}
use oiaj.Cms.Tables.{Page, CmsDb, CmsWorld, Schema}
use oiaj.Cms.Platform.{Platform}
use oiaj.Cms.Objects.{join_all, is_attached, pages_under}
use oiaj.Cms.Objects
use oiaj.Cms.Objects.Pages.{IsSound, IsSound-later}
use oiaj.Cms.Objects.Kept.{make_submission-IsStored}
use oiaj.Cms.Impl.{Settings, make_submission}

module _ {F : Type 0} (go : Platform F) where
  -- Where a content is the sum of the pages that PostgreSQL makes of it, and each object of the file
  -- store stands under the digest of its content, with no number above the last one drawn, the same
  -- holds after a submission was sent, with any sources and whatever fails.
  pub make_submission-IsSound :
      ((c : Bytes) → join_all (λ p. p) (go.pages_of c) ≡ c)
      → (schema : Schema F) (settings : Settings) (uid task_id : ObjectId) (sources : Sources)
        (w w' : CmsWorld F) (o : Outcome Unit)
      → IsSound go w.sequences.large_objects w.db
      → make_submission go schema settings uid task_id sources w ≡ (o, w')
      → IsSound go w'.sequences.large_objects w'.db
  unfolding make_submission
  make_submission-IsSound law schema settings uid task_id sources w w' o sound ran =
      let body =
        Objects.make_submission go schema settings.cms_contest_id uid task_id sources
          settings.now in
      let kept =
        make_submission-IsStored go schema law w.sequences.large_objects settings.cms_contest_id uid
          task_id sources settings.now (started w)
          (record { drawn = omega arith; sound = sound }) in
      subst (λ (x : CmsWorld F). IsSound go x.sequences.large_objects x.db) (ap (λ x. x.1) ran)
        (elim (with_tx-parts body w) [
          | inl (same, drawn) ↦ rw (same, drawn) sound
          | inr (inl same, drawn) ↦
              rw (same, drawn)
                (IsSound-later go w.sequences.large_objects
                  (body (started w)).1.sequences.large_objects w.db kept.drawn sound)
          | inr (inr done, drawn) ↦ rw (done, drawn) kept.sound
        ])

module _ {F : Type 0} (go : Platform F) (tid : ObjectId) (filename : Bytes) where
  -- The pages that the SELECT of an attachment finds.
  abbrev found_pages : CmsDb F → List Page
  found_pages d =
      join_all (λ a. pages_under a.digest d) (select (is_attached tid filename) d.attachments)
