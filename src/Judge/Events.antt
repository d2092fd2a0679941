-- ===== src/Judge/Events.antt =====
-- `handleSubmission`, `handleTask` and `HandleEvents` of oiajudge/pkg/oiajudge/updater.go.
pub mod Balance
pub mod Complete
pub mod Accounts
use oiaj.Bridge.{ObjectId, Event, EventType, submission, task, unknown}
use oiaj.Store.Action.{◌>>=◌, pure}
use oiaj.Judge.Server.{Config, Api, on_judge, on_contest}
use oiaj.Judge.Updater.{store_submission, store_task}

module _ {F B : Type 0} (config : Config F B) where
  -- `handleSubmission`
  unfoldable pub handle_submission : ObjectId → Api F B Unit
  handle_submission submission_id = do
    s ← on_contest (config.bridge.get_submission submission_id)
    on_judge (store_submission config.num s)

  -- `handleTask`
  unfoldable pub handle_task : ObjectId → Api F B Unit
  handle_task task_id = do
    t ← on_contest (config.bridge.get_task task_id)
    on_judge (store_task config.num t)

  unfoldable pub dispatch : EventType → ObjectId → Api F B Unit
  unfolding handle_submission handle_task
  dispatch submission object_id = handle_submission object_id
  dispatch task object_id = handle_task object_id
  dispatch (unknown name) object_id = pure tt

  -- `HandleEvents`
  unfoldable pub handle_event : Event → Api F B Unit
  unfolding dispatch
  handle_event event = dispatch event.event_type event.object_id
