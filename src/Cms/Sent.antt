-- ===== src/Cms/Sent.antt =====
-- A submission that was sent: what `MakeSubmission` of oiajudge/pkg/cmsbridge/submission.go leaves in
-- the tables of submissions and files and in the event queue.
use oiaj.Base.{
  ◌+◌, ◌≡◌, refl, sym, ap, ◌∙◌, true, false, ◌&&◌, Option, some, List, [], ◌∷◌, ◌++◌, map, select,
  arith, String, inl, inr,
}
use mathlib.Core.Path.{subst}
use oiaj.Base.Int.{ℤ, pos, eq_ℤ}
use oiaj.Text.Bytes.{Bytes, codes, bytes_eq}
use oiaj.Bridge.{ObjectId, Sources}
use oiaj.Store.Errors.{Outcome-cases, Outcome, ok}
use oiaj.Store.Action.{◌>>◌, pure, >>=-inv}
use oiaj.Store.Session.{query}
use oiaj.Store.Session.Inverse.{exec-inv, query_row-inv}
use oiaj.Store.Session.Atomic.{started, with_tx-ok}
use oiaj.Cms.Tables.{CmsSubmission, FileRow, QueueRow, CmsDb, CmsSequences, CmsWorld, Schema}
use oiaj.Cms.Platform.{Platform}
use oiaj.Cms.Queue.{enqueue}
use oiaj.Cms.Objects.{
  create_object, touch_object, deferring, write_object, name_object, insert_object, fill_object,
  store_object, use_digests, add_fs_object, add_file, insert_file, add_files, new_submission,
  insert_submission, scalar, put_submission,
}
use oiaj.Cms.Objects
use oiaj.Cms.Objects.Aside.{IsAside, add_fs_object-IsAside}
use oiaj.Cms.Objects.Pages.{append_nil}
use oiaj.Cms.Impl.{Settings, make_submission}

abbrev row_with : ObjectId → Bytes → Bytes → FileRow
row_with sid filename digest = record { submission_id = sid; filename = filename; digest = digest }

-- The rows of the files of a submission.
abbrev pub files_of : {F : Type 0} → Platform F → ObjectId → Sources → List FileRow
files_of go sid [] = []
files_of go sid ((filename, content) ∷ sources) =
    row_with sid filename (go.digest content) ∷ files_of go sid sources

append_assoc : {A : Type 0} (xs ys zs : List A) → (xs ++ ys) ++ zs ≡ xs ++ (ys ++ zs)
append_assoc [] ys zs = refl
append_assoc (x ∷ xs) ys zs = ap (λ l. x ∷ l) (append_assoc xs ys zs)

module _ {F : Type 0} (go : Platform F) (schema : Schema F) where
  use_digests-digest :
      (digest content : Bytes) (found : List Bytes) (w w' : CmsWorld F) (r : Bytes)
      → use_digests go schema digest content found w ≡ (ok r, w')
      → r ≡ digest
  unfolding use_digests store_object
  use_digests-digest digest content [] w w' r ran =
      let (oid, w1, drew, rest) =
        >>=-inv create_object (λ oid. fill_object go schema digest content oid >> pure digest) w
          ran in
      let (u, w2, filled, last) =
        >>=-inv (fill_object go schema digest content oid) (λ _. pure digest) w1 rest in
      ground arith
  use_digests-digest digest content (f ∷ found) w w' r ran = ground arith

  add_fs_object-digest :
      (content : Bytes) (w w' : CmsWorld F) (r : Bytes)
      → add_fs_object go schema content w ≡ (ok r, w')
      → r ≡ go.digest content
  unfolding add_fs_object
  add_fs_object-digest content w w' r ran =
      let value = λ (d : CmsDb F).
        ok (map (λ o. o.digest) (select (λ o. bytes_eq o.digest (go.digest content)) d.objects)) in
      let text : String = "SELECT digest FROM fsobjects WHERE digest = $1" in
      let (found, w1, read, rest) =
        >>=-inv (query text (λ d s. (value d, d, s)))
          (use_digests go schema (go.digest content) content) w ran in
      use_digests-digest (go.digest content) content found w1 w' r rest

  -- The tables after files have been added.
  record Adds (rows : List FileRow) (d d' : CmsDb F) : Type 0 where
    submissions : d'.submissions ≡ d.submissions
    queue : d'.queue ≡ d.queue
    files : d'.files ≡ d.files ++ rows

  add_file-Adds :
      (sid : ObjectId) (filename digest : Bytes) (w w' : CmsWorld F)
      → add_file schema sid filename digest w ≡ (ok tt, w')
      → Adds (row_with sid filename digest ∷ []) w.db w'.db
  unfolding add_file insert_file
  add_file-Adds sid filename digest w w' ran =
      let row = row_with sid filename digest in
      let (d, s, changed, same, live) = exec-inv w w' _ (insert_file schema row) ran in
      let db = ap (λ x. x.db) same in
      record {
        submissions = ground (arith, db, changed);
        queue = ground (arith, db, changed);
        files = ground (arith, db, changed);
      }

  add_files-Adds :
      (sid : ObjectId) (sources : Sources) (w w' : CmsWorld F)
      → add_files go schema sid sources w ≡ (ok tt, w')
      → Adds (files_of go sid sources) w.db w'.db
  unfolding add_files
  add_files-Adds sid [] w w' ran = record {
    submissions = ground arith;
    queue = ground arith;
    files = ap (λ x. x.1.db.files) (sym ran) ∙ sym (append_nil w.db.files);
  }
  add_files-Adds sid ((filename, content) ∷ sources) w w' ran =
      let (digest, w1, stored, rest) =
        >>=-inv (add_fs_object go schema content)
          (λ digest. add_file schema sid filename digest >> add_files go schema sid sources) w
          ran in
      let (u, w2, linked, more) =
        >>=-inv (add_file schema sid filename digest) (λ _. add_files go schema sid sources) w1
          rest in
      let aside =
        add_fs_object-IsAside go schema w.db content w
          (record { submissions = refl; queue = refl; files = refl }) in
      let kept : IsAside w.db w1.db = subst (λ x. IsAside w.db x.1.db) stored aside in
      let value = add_fs_object-digest content w w1 digest stored in
      let rest_rows = files_of go sid sources in
      let row_of = λ (x : Bytes). row_with sid filename x in
      let first = add_file-Adds sid filename digest w1 w2 linked in
      let others = add_files-Adds sid sources w2 w' more in
      record {
        submissions = others.submissions ∙ first.submissions ∙ kept.submissions;
        queue = others.queue ∙ first.queue ∙ kept.queue;
        files =
            others.files
            ∙ ap (λ l. l ++ rest_rows) (first.files ∙ ap (λ l. l ++ row_of digest ∷ []) kept.files)
            ∙ append_assoc w.db.files (row_of digest ∷ []) rest_rows
            ∙ ap (λ x. w.db.files ++ row_of x ∷ rest_rows) value;
      }

-- The row of a submission that is sent, and the row that its trigger puts into the queue.
abbrev pub sent_row : ObjectId → Option ObjectId → ObjectId → ℤ → CmsSubmission
sent_row sid participation task_id now = record {
  id = sid;
  participation_id = participation;
  task_id = task_id;
  timestamp = now;
  language = codes "C++11 / g++";
  comment = [];
  official = true;
}

abbrev pub sent_event : ObjectId → ObjectId → QueueRow
sent_event id sid = record {
  id = id;
  foreign_id = sid;
  object_type = codes "submission";
  seen = false;
}

module _ {F : Type 0} (schema : Schema F) (cid uid task_id : ObjectId) (now : ℤ) where
  -- The user's participation, if the contest has one.
  abbrev pub participation_of : CmsDb F → Outcome (Option ObjectId)
  participation_of d =
      scalar (select (λ p. eq_ℤ p.user_id uid && eq_ℤ p.contest_id cid) d.participations)

  -- The tables once the submission has its row and its event.
  abbrev opened : ObjectId → Option ObjectId → ObjectId → CmsDb F → CmsDb F
  opened sid participation id d = record d {
    submissions = d.submissions ++ sent_row sid participation task_id now ∷ [];
    queue = d.queue ++ sent_event id sid ∷ [];
  }

  insert_submission-inv :
      (d d' : CmsDb F) (s s' : CmsSequences) (sid : ObjectId)
      → insert_submission schema cid uid task_id now d s ≡ (ok (some sid), d', s')
      → (p : Option ObjectId) × (participation_of d ≡ ok p)
        × (sid ≡ pos (s.submissions + 1))
        × (d' ≡ opened sid p (pos (s.events + 1)) d)
  unfolding insert_submission put_submission enqueue
  insert_submission-inv d d' s s' sid ran = elim (Outcome-cases (participation_of d)) [
    | inl (p, e) ↦ (p, e, ground arith, ground arith)
    | inr (inl (x, e)) ↦ absurd (ground arith)
    | inr (inr (m, e)) ↦ absurd (ground arith)
  ]

module _ {F : Type 0} (go : Platform F) (schema : Schema F) (settings : Settings) where
  pub make_submission-sent :
      (uid task_id : ObjectId) (sources : Sources) (w w' : CmsWorld F)
      → make_submission go schema settings uid task_id sources w ≡ (ok tt, w')
      → (p : Option ObjectId) × (participation_of schema settings.cms_contest_id uid task_id
            settings.now w.db
          ≡ ok p)
        × (w'.db.submissions
            ≡ w.db.submissions
              ++ sent_row (pos (w.sequences.submissions + 1)) p task_id settings.now ∷ [])
        × (w'.db.queue
            ≡ w.db.queue
              ++ sent_event (pos (w.sequences.events + 1)) (pos (w.sequences.submissions + 1)) ∷ [])
        × (w'.db.files ≡ w.db.files ++ files_of go (pos (w.sequences.submissions + 1)) sources)
  unfolding make_submission Objects.make_submission new_submission
  make_submission-sent uid task_id sources w w' ran =
      let cid = settings.cms_contest_id in
      let now = settings.now in
      let body = Objects.make_submission go schema cid uid task_id sources now in
      let (returned, committed) = with_tx-ok body w tt (ap (λ x. x.0) ran) in
      let w2 = (body (started w)).1 in
      let (sid, w1, made, rest) =
        >>=-inv (new_submission schema cid uid task_id now) (λ sid. add_files go schema sid sources)
          (started w) (ap (λ o. (o, w2)) returned) in
      let (d, s, changed, reached, alive) =
        query_row-inv (started w) w1 _ (insert_submission schema cid uid task_id now) sid made in
      let (p, joined, numbered, grown) =
        insert_submission-inv schema cid uid task_id now w.db d w.sequences s sid changed in
      let added = add_files-Adds go schema sid sources w1 w2 rest in
      let db1 : w1.db
          ≡ opened schema cid uid task_id now sid p (pos (w.sequences.events + 1)) w.db =
        ap (λ x. x.db) reached ∙ grown in
      let last : w'.db ≡ w2.db = ap (λ x. x.1.db) (sym ran) ∙ committed.0 in
      (
        p,
        joined,
        ap (λ x. x.submissions) last
            ∙ added.submissions
            ∙ ap (λ x. x.submissions) db1
            ∙ ap (λ x. w.db.submissions ++ sent_row x p task_id now ∷ []) numbered,
        ap (λ x. x.queue) last
            ∙ added.queue
            ∙ ap (λ x. x.queue) db1
            ∙ ap (λ x. w.db.queue ++ sent_event (pos (w.sequences.events + 1)) x ∷ []) numbered,
        ap (λ x. x.files) last
            ∙ added.files
            ∙ ap (λ x. x ++ files_of go sid sources) (ap (λ x. x.files) db1)
            ∙ ap (λ x. w.db.files ++ files_of go x sources) numbered,
      )
