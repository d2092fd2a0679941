-- ===== src/Cms/Objects.antt =====
-- Contents in the file store of the contest system, and the submissions that bring them:
-- `AddFsObject` and `MakeSubmission` of oiajudge/pkg/cmsbridge/submission.go, and
-- `GetAttachment` of oiajudge/pkg/cmsbridge/attachment.go.
pub mod Pages
pub mod Stored
pub mod Kept
pub mod Aside
use oiaj.Base.{
  ℕ, suc, ◌+◌, Bool, true, ◌&&◌, Option, none, some, List, [], ◌∷◌, ◌++◌, map, ◌==◌, leb,
  if◌then◌else◌, select,
}
use oiaj.Base.Int.{ℤ, pos, eq_ℤ}
use oiaj.Text.Bytes.{Bytes, codes, bytes_eq}
use oiaj.Bridge.{ObjectId, Sources}
use oiaj.Store.Errors.{cardinality_violation, Outcome, ok, err, panic}
use oiaj.Store.Action.{◌>>=◌, ◌>>◌, pure, recover}
use oiaj.Store.Session.{exec, query_row, query, statement}
use oiaj.Cms.Tables.{
  Participation, CmsSubmission, FileRow, Attachment, FsObject, Page, CmsDb, CmsSequences, CmsTx,
  CmsSql, Schema,
}
use oiaj.Cms.Platform.{Platform}
use oiaj.Cms.Queue.{enqueue}

abbrev pub join_all : {A B : Type 0} → (A → List B) → List A → List B
join_all f [] = []
join_all f (x ∷ xs) = f x ++ join_all f xs

-- `ORDER BY pg_largeobject.pageno ASC`
abbrev insert_page : Page → List Page → List Page
insert_page p [] = p ∷ []
insert_page p (q ∷ ps) =
    let rest = insert_page p ps in if leb p.pageno q.pageno then p ∷ q ∷ ps else q ∷ rest

unfoldable pub by_pageno : List Page → List Page
by_pageno [] = []
by_pageno (p ∷ ps) = insert_page p (by_pageno ps)

-- The pages of a content from a number on.
unfoldable pub pages_from : ℕ → ℕ → List Bytes → List Page
pages_from loid n [] = []
pages_from loid n (c ∷ cs) =
    record { loid = loid; pageno = n; content = c } ∷ pages_from loid (suc n) cs

unfoldable pub contents : List Page → Bytes
contents ps = join_all (λ p. p.content) ps

unfoldable pub is_attached : ObjectId → Bytes → Attachment → Bool
is_attached tid filename a = eq_ℤ a.task_id tid && bytes_eq a.filename filename

module _ {F : Type 0} where
  -- The pages that stand under a digest, over the objects and then the pages.
  unfoldable pub pages_under : Bytes → CmsDb F → List Page
  pages_under digest d =
      join_all (λ o. select (λ p. p.loid == o.loid) d.pages)
        (select (λ o. bytes_eq o.digest digest) d.objects)

  -- `GetAttachment`
  unfoldable pub get_attachment : ObjectId → Bytes → CmsTx F Bytes
  unfolding is_attached
  get_attachment tid filename = do
    pages ←
        query
          "SELECT pg_largeobject.data FROM attachments INNER JOIN fsobjects ON attachments.digest = fsobjects.digest INNER JOIN pg_largeobject ON fsobjects.loid = pg_largeobject.loid WHERE attachments.task_id = $1 AND attachments.filename = $2 ORDER BY pg_largeobject.pageno ASC;"
          λ d s. (
            ok (
                by_pageno (
                  join_all (λ a. pages_under a.digest d)
                    (select (is_attached tid filename) d.attachments))),
            d,
            s,
          )
    pure (contents pages)

module _ {F : Type 0} where
  -- `lo_create`, `lo_open`, `lowrite` and `lo_close` are statements of their own.
  unfoldable pub create_object : CmsTx F ℕ
  create_object =
      statement
        λ d s. (ok (s.large_objects + 1), d, record s { large_objects = s.large_objects + 1 })

  unfoldable pub touch_object : CmsTx F Unit
  touch_object = statement λ d s. (ok tt, d, s)

  -- What a deferred call does whose error nobody reads.
  unfoldable pub deferring : CmsTx F Unit → CmsTx F Unit → CmsTx F Unit
  deferring last m w = let (r, w1) = m w in (r, (last w1).1)

-- The SELECT in the place of a value: NULL where there is no row.
unfoldable pub scalar : List Participation → Outcome (Option ObjectId)
scalar [] = ok none
scalar (p ∷ []) = ok (some p.id)
scalar (p ∷ q ∷ rest) = err cardinality_violation

module _ {F : Type 0} (schema : Schema F) where
  unfoldable pub insert_object : Bytes → ℕ → CmsSql F Unit
  insert_object digest oid d s =
      let row : FsObject = record { digest = digest; loid = oid } in
      elim (schema.object_violation row d) [
        | none ↦ (ok tt, record d { objects = d.objects ++ row ∷ [] }, s)
        | some e ↦ (err e, d, s)
      ]

  unfoldable pub name_object : Bytes → ℕ → CmsTx F Unit
  unfolding insert_object
  name_object digest oid =
      exec "INSERT INTO fsobjects (digest, loid, description) VALUES ($1, $2, $3)"
        (insert_object digest oid)

  unfoldable pub insert_file : FileRow → CmsSql F Unit
  insert_file row d s = elim (schema.file_violation row d) [
    | none ↦ (ok tt, record d { files = d.files ++ row ∷ [] }, s)
    | some e ↦ (err e, d, s)
  ]

  unfoldable pub add_file : ObjectId → Bytes → Bytes → CmsTx F Unit
  unfolding insert_file
  add_file sid filename digest =
      exec "INSERT INTO files (submission_id, filename, digest) VALUES ($1, $2, $3)"
        (insert_file (record { submission_id = sid; filename = filename; digest = digest }))

  -- The sequence, then the trigger, then the constraints.
  unfoldable pub put_submission :
      CmsSubmission
      → Outcome Unit × CmsDb F × CmsSequences
      → CmsDb F
      → Outcome (Option ObjectId) × CmsDb F × CmsSequences
  put_submission row (ok u, d', s') d = elim (schema.submission_violation row d) [
    | none ↦ (ok (some row.id), record d' { submissions = d'.submissions ++ row ∷ [] }, s')
    | some e ↦ (err e, d, s')
  ]
  put_submission row (err e, d', s') d = (err e, d, s')
  put_submission row (panic m, d', s') d = (panic m, d, s')

  unfoldable pub insert_submission : ObjectId → ObjectId → ObjectId → ℤ → CmsSql F (Option ObjectId)
  unfolding scalar put_submission enqueue
  insert_submission cid uid task_id now d s =
      elim (scalar (select (λ p. eq_ℤ p.user_id uid && eq_ℤ p.contest_id cid) d.participations)) [
        | err e ↦ (err e, d, s)
        | panic m ↦ (panic m, d, s)
        | ok participation ↦
            let id = pos (s.submissions + 1) in
            put_submission
              (record {
                id = id;
                participation_id = participation;
                task_id = task_id;
                timestamp = now;
                language = codes "C++11 / g++";
                comment = [];
                official = true;
              })
              (enqueue id (codes "submission") d (record s { submissions = s.submissions + 1 })) d
      ]

  unfoldable pub new_submission : ObjectId → ObjectId → ObjectId → ℤ → CmsTx F ObjectId
  unfolding insert_submission
  new_submission cid uid task_id now =
      query_row
        "INSERT INTO submissions (participation_id, task_id, timestamp, language, comment, official) VALUES ( (SELECT id FROM participations WHERE user_id = $1 AND contest_id = $2), $3, $4, $5, '', $6 ) RETURNING id"
        (insert_submission cid uid task_id now)

module _ {F : Type 0} (go : Platform F) where
  unfoldable pub write_object : ℕ → Bytes → CmsTx F Unit
  unfolding pages_from
  write_object oid content =
      statement
        λ d s. (ok tt, record d { pages = d.pages ++ pages_from oid 0 (go.pages_of content) }, s)

module _ {F : Type 0} (go : Platform F) (schema : Schema F) where
  -- After `lo_create`; the error of `fs.Write` is dropped.
  unfoldable pub fill_object : Bytes → Bytes → ℕ → CmsTx F Unit
  unfolding touch_object write_object name_object deferring
  fill_object digest content oid =
      touch_object
      >> deferring touch_object
          (recover (write_object go oid content) (λ e. pure tt) >> name_object schema digest oid)

  unfoldable pub store_object : Bytes → Bytes → CmsTx F Bytes
  unfolding create_object fill_object
  store_object digest content = do oid ← create_object; fill_object digest content oid; pure digest

  -- What follows the look at the digests that are there.
  unfoldable pub use_digests : Bytes → Bytes → List Bytes → CmsTx F Bytes
  unfolding store_object
  use_digests digest content [] = store_object digest content
  use_digests digest content (found ∷ more) = pure digest

  -- `AddFsObject`
  unfoldable pub add_fs_object : Bytes → CmsTx F Bytes
  unfolding use_digests
  add_fs_object content = do
    rows ← query "SELECT digest FROM fsobjects WHERE digest = $1" λ d s. (
      ok (map (λ o. o.digest) (select (λ o. bytes_eq o.digest (go.digest content)) d.objects)),
      d,
      s,
    )
    use_digests (go.digest content) content rows

  -- `for filename, content := range sources`, in the order in which the map is walked.
  unfoldable pub add_files : ObjectId → Sources → CmsTx F Unit
  unfolding add_fs_object add_file
  add_files sid [] = pure tt
  add_files sid ((filename, content) ∷ sources) = do
    digest ← add_fs_object content
    add_file schema sid filename digest
    add_files sid sources

  -- `MakeSubmission`
  unfoldable pub make_submission : ObjectId → ObjectId → ObjectId → Sources → ℤ → CmsTx F Unit
  unfolding new_submission add_files
  make_submission cid uid task_id sources now = do
    sid ← new_submission schema cid uid task_id now
    add_files sid sources
