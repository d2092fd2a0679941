-- ===== src/Cms/Queue.antt =====
-- The event queue: the triggers of oiajudge/pkg/cmsbridge/migrations/001.sql, and
-- `DeleteNotification` and `GetNotifications` of oiajudge/pkg/cmsbridge/store.go.
use oiaj.Base.{
  ◌+◌, ◌^◌, Bool, true, false, not, List, [], ◌∷◌, ◌++◌, map, ltb, if◌then◌else◌, select, reject,
}
use oiaj.Base.Int.{pos, eq_ℤ}
use oiaj.Text.Bytes.{Bytes, codes, bytes_eq}
use oiaj.Bridge.{ObjectId, Event, EventType, submission, task, unknown}
use oiaj.Store.Errors.{sequence_exhausted, ok, err}
use oiaj.Store.Action.{◌>>=◌, ◌>>◌, pure}
use oiaj.Store.Session.{exec, query}
use oiaj.Cms.Tables.{QueueRow, CmsTx, CmsSql}

-- A column `object_type` as the constant that the program compares it with.
unfoldable pub event_type_of : Bytes → EventType
event_type_of t =
    if bytes_eq t (codes "submission")
    then submission
    else if bytes_eq t (codes "task")
    then task
    else unknown t

unfoldable pub event_of : QueueRow → Event
unfolding event_type_of
event_of r = record {
  event_id = r.id;
  object_id = r.foreign_id;
  event_type = event_type_of r.object_type;
}

abbrev pub is_event : ObjectId → QueueRow → Bool
is_event id r = eq_ℤ r.id id

abbrev pub is_new : QueueRow → Bool
is_new r = not r.seen

unfoldable pub mark : QueueRow → QueueRow
mark r = record r { seen = true }

module _ {F : Type 0} where
  -- The triggers on `tasks`, `submissions` and `submission_results` put a row behind the queue. Its
  -- SERIAL id is an int32.
  unfoldable pub enqueue : ObjectId → Bytes → CmsSql F Unit
  enqueue id object_type d s =
      if ltb (s.events + 1) (2 ^ 31)
      then (
        ok tt,
        record d {
          queue =
              d.queue
              ++ record {
                id = pos (s.events + 1);
                foreign_id = id;
                object_type = object_type;
                seen = false;
              }
                ∷ [];
        },
        record s { events = s.events + 1 },
      )
      else (err sequence_exhausted, d, s)

  unfoldable pub select_new : CmsTx F (List Event)
  unfolding event_of
  select_new =
      query "SELECT id, foreign_id, object_type FROM event_queue WHERE seen = false"
        λ d s. (ok (map event_of (select is_new d.queue)), d, s)

  unfoldable pub mark_all : CmsTx F Unit
  unfolding mark
  mark_all =
      exec "UPDATE event_queue SET seen = true"
        λ d s. (ok tt, record d { queue = map mark d.queue }, s)

  -- `GetNotifications`
  unfoldable pub get_notifications : CmsTx F (List Event)
  unfolding select_new mark_all
  get_notifications = do v ← select_new; mark_all >> pure v

  -- `DeleteNotification`
  unfoldable pub delete_notification : ObjectId → CmsTx F Unit
  delete_notification id =
      exec "DELETE FROM event_queue WHERE id = $1"
        λ d s. (ok tt, record d { queue = reject (is_event id) d.queue }, s)
