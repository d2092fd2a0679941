-- ===== src/Cms/Impl.antt =====
-- `CmsBridge` of oiajudge/pkg/cmsbridge/impl.go: the bridge over the contest system's database.
use oiaj.Base.{Bool}
use oiaj.Base.Int.{ℤ}
use oiaj.Text.Bytes.{Bytes}
use oiaj.Bridge.{ObjectId, Bridge, Submission, Task, Sources}
use oiaj.Store.Session.{with_tx}
use oiaj.Judge.Server.{Bcrypt, Config}
use oiaj.Cms.Tables.{CmsTx, CmsWorld, Schema}
use oiaj.Cms.Platform.{Platform}
use oiaj.Cms.Users
use oiaj.Cms.Objects
use oiaj.Cms.Submissions
use oiaj.Cms.Tasks

-- `Config` of oiajudge/pkg/cmsbridge/cmsbridge.go, of which the requests read the contest, and the
-- instant that `time.Now()` answers.
pub record Settings : Type 0 where
  pub cms_contest_id : ObjectId
  pub now : ℤ

module _ {F : Type 0} (go : Platform F) (schema : Schema F) (config : Settings) where
  -- `CreateUser`
  unfoldable pub create_user : Bytes → CmsTx F ObjectId
  create_user username = with_tx (Users.create_user schema config.cms_contest_id username)

  -- `GetSubmission`
  unfoldable pub get_submission : ObjectId → CmsTx F (Submission F)
  get_submission submission = with_tx (Submissions.get_submission go submission)

  -- `GetTask`
  unfoldable pub get_task : ObjectId → CmsTx F (Task F)
  get_task task = with_tx (Tasks.get_task go task)

  -- `MakeSubmission`
  unfoldable pub make_submission : ObjectId → ObjectId → Sources → CmsTx F Unit
  make_submission uid task_id sources =
      with_tx
        (Objects.make_submission go schema config.cms_contest_id uid task_id sources config.now)

  -- `GetAttachment`
  unfoldable pub get_attachment : ObjectId → Bytes → CmsTx F Bytes
  get_attachment tid filename = with_tx (Objects.get_attachment tid filename)

  -- `CmsBridge` as a `bridge.Bridge`
  unfoldable pub cms_bridge : Bridge F (CmsWorld F)
  unfolding create_user get_submission get_task make_submission get_attachment
  cms_bridge = record {
    create_user = create_user;
    get_submission = get_submission;
    get_task = get_task;
    make_submission = make_submission;
    get_attachment = get_attachment;
  }

  -- The judge over this bridge, as main.go puts them together.
  abbrev pub judge_config : Bcrypt → ℤ → Bool → Config F (CmsWorld F)
  judge_config bcrypt cooldown debug = record {
    num = go.num;
    bridge = cms_bridge;
    bcrypt = bcrypt;
    submission_cooldown = cooldown;
    debug = debug;
  }
