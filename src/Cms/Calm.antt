-- ===== src/Cms/Calm.antt =====
-- Panics in the requests of `CmsBridge` (oiajudge/pkg/cmsbridge/impl.go) that the judge's routes make.
use oiaj.Base.{List, [], ◌∷◌, arith, ℕ}
use oiaj.Base.Int.{ℤ}
use oiaj.Text.Bytes.{Bytes}
use oiaj.Bridge.{ObjectId, Sources}
use oiaj.Store.Action.{◌>>=◌, ◌>>◌, pure, recover}
use oiaj.Store.Action.Calm.{IsCalm, pure-IsCalm, >>=-IsCalm, recover-IsCalm}
use oiaj.Store.Session.{query}
use oiaj.Store.Session.Calm.{
  Quiet, statement-IsCalm, exec-IsCalm, query_row-IsCalm, query-IsCalm, with_tx-IsCalm,
}
use oiaj.Judge.Routes.Calm.{IsTameBridge}
use oiaj.Cms.Tables.{CmsTx, Schema}
use oiaj.Cms.Platform.{Platform}
use oiaj.Cms.Queue.{enqueue}
use oiaj.Cms.Users.{insert_cms_user, find_cms_user, insert_participation, add_participation}
use oiaj.Cms.Users
use oiaj.Cms.Objects.{
  contents, create_object, touch_object, deferring, scalar, insert_object, name_object, insert_file,
  add_file, put_submission, insert_submission, new_submission, write_object, fill_object,
  store_object, use_digests, add_fs_object, add_files,
}
use oiaj.Cms.Objects
use oiaj.Cms.Impl.{Settings, create_user, make_submission, get_attachment, cms_bridge}

module _ {F : Type 0} where
  abbrev Calmly : {A : Type 0} → CmsTx F A → Type 0
  Calmly m = IsCalm Quiet m

  touch_object-IsCalm : Calmly touch_object
  unfolding touch_object
  touch_object-IsCalm = statement-IsCalm _ λ d s m h. ground arith

  deferring-IsCalm : (last m : CmsTx F Unit) → Calmly last → Calmly m → Calmly (deferring last m)
  unfolding deferring
  deferring-IsCalm last m h k w g =
      let run = k w g in record { state = (h (m w).1 run.state).state; returns = run.returns }

  get_attachment-IsCalm : (tid : ObjectId) (name : Bytes) → Calmly (Objects.get_attachment tid name)
  unfolding Objects.get_attachment
  get_attachment-IsCalm tid name =
      >>=-IsCalm Quiet (query _ _) (λ pages. pure (contents pages))
        (query-IsCalm _ _ λ d s m h. ground arith) λ pages. pure-IsCalm Quiet (contents pages)

module _ {F : Type 0} (schema : Schema F) where
  create_user-IsCalm : (cid : ObjectId) (name : Bytes) → Calmly (Users.create_user schema cid name)
  unfolding Users.create_user insert_cms_user find_cms_user add_participation insert_participation
  create_user-IsCalm cid name =
      >>=-IsCalm Quiet _ (λ u. find_cms_user schema name >>= add_participation schema cid)
        (exec-IsCalm _ (insert_cms_user schema name) λ d s m h. ground arith)
        λ u.
          >>=-IsCalm Quiet (find_cms_user schema name) (add_participation schema cid)
            (query_row-IsCalm _ _ λ d s m h. ground arith)
            λ d.
              >>=-IsCalm Quiet _ (λ u. pure d)
                (exec-IsCalm _ (insert_participation schema d cid) λ d s m h. ground arith)
                λ u. pure-IsCalm Quiet d

  new_submission-IsCalm :
      (cid uid task_id : ObjectId) (now : ℤ) → Calmly (new_submission schema cid uid task_id now)
  unfolding new_submission insert_submission scalar put_submission enqueue
  new_submission-IsCalm cid uid task_id now =
      query_row-IsCalm _ (insert_submission schema cid uid task_id now) λ d s m h. ground arith

  name_object-IsCalm : (digest : Bytes) (oid : ℕ) → Calmly (name_object schema digest oid)
  unfolding name_object insert_object
  name_object-IsCalm digest oid =
      exec-IsCalm _ (insert_object schema digest oid) λ d s m h. ground arith

  add_file-IsCalm :
      (sid : ObjectId) (name digest : Bytes) → Calmly (add_file schema sid name digest)
  unfolding add_file insert_file
  add_file-IsCalm sid name digest = exec-IsCalm _ (insert_file schema _) λ d s m h. ground arith

  module _ (go : Platform F) where
    fill_object-IsCalm :
        (digest content : Bytes) (oid : ℕ) → Calmly (fill_object go schema digest content oid)
    unfolding fill_object write_object
    fill_object-IsCalm digest content oid =
        let written =
          recover-IsCalm Quiet (write_object go oid content) (λ e. pure tt)
            (statement-IsCalm _ λ d s m h. ground arith) (λ e. pure-IsCalm Quiet tt) in
        >>=-IsCalm Quiet touch_object
          (λ u.
            deferring touch_object (
              recover (write_object go oid content) (λ e. pure tt)
              >> name_object schema digest oid))
          touch_object-IsCalm
          λ u.
            deferring-IsCalm touch_object
              (recover (write_object go oid content) (λ e. pure tt)
                >> name_object schema digest oid)
              touch_object-IsCalm
              (>>=-IsCalm Quiet (recover (write_object go oid content) (λ e. pure tt))
                (λ u. name_object schema digest oid) written λ u. name_object-IsCalm digest oid)

    use_digests-IsCalm :
        (digest content : Bytes) (rows : List Bytes)
        → Calmly (use_digests go schema digest content rows)
    unfolding use_digests store_object create_object
    use_digests-IsCalm digest content [] w g =
        >>=-IsCalm Quiet create_object
          (λ oid. fill_object go schema digest content oid >> pure digest)
          (statement-IsCalm _ λ d s m h. ground arith)
          (λ oid.
            >>=-IsCalm Quiet (fill_object go schema digest content oid) (λ u. pure digest)
              (fill_object-IsCalm digest content oid) λ u. pure-IsCalm Quiet digest)
          w g
    use_digests-IsCalm digest content (found ∷ more) w g = pure-IsCalm Quiet digest w g

    add_fs_object-IsCalm : (content : Bytes) → Calmly (add_fs_object go schema content)
    unfolding add_fs_object
    add_fs_object-IsCalm content =
        >>=-IsCalm Quiet (query _ _) (use_digests go schema (go.digest content) content)
          (query-IsCalm _ _ λ d s m h. ground arith)
          (use_digests-IsCalm (go.digest content) content)

    add_files-IsCalm :
        (sid : ObjectId) (sources : Sources) → Calmly (add_files go schema sid sources)
    unfolding add_files
    add_files-IsCalm sid [] w g = pure-IsCalm Quiet tt w g
    add_files-IsCalm sid ((name, content) ∷ sources) w g =
        >>=-IsCalm Quiet (add_fs_object go schema content)
          (λ digest. add_file schema sid name digest >> add_files go schema sid sources)
          (add_fs_object-IsCalm content)
          (λ digest.
            >>=-IsCalm Quiet (add_file schema sid name digest)
              (λ u. add_files go schema sid sources) (add_file-IsCalm sid name digest)
              λ u. add_files-IsCalm sid sources)
          w g

    -- Where PostgreSQL answers, the bridge's requests return a value or an error.
    pub cms_bridge-IsTameBridge :
        (settings : Settings) → IsTameBridge Quiet (cms_bridge go schema settings)
    unfolding cms_bridge create_user make_submission get_attachment Objects.make_submission
    cms_bridge-IsTameBridge settings = record {
      creates = λ name. with_tx-IsCalm _ (create_user-IsCalm settings.cms_contest_id name);
      submits = λ user task sources. with_tx-IsCalm _ (
          >>=-IsCalm Quiet (new_submission schema settings.cms_contest_id user task settings.now)
            (λ sid. add_files go schema sid sources)
            (new_submission-IsCalm settings.cms_contest_id user task settings.now)
            λ sid. add_files-IsCalm sid sources);
      attaches = λ task name. with_tx-IsCalm _ (get_attachment-IsCalm task name);
    }
