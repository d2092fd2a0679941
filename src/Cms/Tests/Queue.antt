-- ===== src/Cms/Tests/Queue.antt =====
-- Runs of the event queue.
use oiaj.Base.{
  ℕ, suc, ◌≡◌, refl, ◌↔◌, none, some, List, [], ◌∷◌, map, select, not, true, ltb, if◌then◌else◌,
  All, false,
}
use mathlib.Core.List.{Permᴰ}
use oiaj.Base.Int.{ℤ, pos, eq_ℤ}
use oiaj.Text.Bytes.{bytes_eq, bytes_ltb}
use oiaj.Bridge.{Event, submission, task}
use oiaj.Store.Errors.{plain, text, ok, err}
use oiaj.Store.Action.{Action}
use oiaj.Store.Session.{cut, with_tx, with_local_tx, exec, query, query_row}
use oiaj.Judge.Server.{Server}
use oiaj.Judge.Events.{handle_event}
use oiaj.Judge.Updater.{store_submission, store_task}
use oiaj.Judge.Updater.Balance.{IsBalanced}
use oiaj.Judge.Tests.Data.{num_ℤ, num_ℤ-IsExact, db-IsBalanced}
use oiaj.Cms.Tables.{QueueRow, CmsWorld}
use oiaj.Cms.Queue.{event_of}
use oiaj.Cms.Channel.{Item, event, retry, push_existing_rows, handle_item, consume}
use oiaj.Cms.Channel.Retry.{Ends, retry-Ends}
use oiaj.Cms.Channel.Push.{IsTasksFirst, push_existing_rows-waiting}
use oiaj.Cms.Channel.Drain.{Keeps}
use oiaj.Cms.Channel.Left.{WasSeen, consume-push}
use oiaj.Cms.Impl.{cms_bridge}
use oiaj.Cms.Polite.{handle_event-IsPolite}
use oiaj.Cms.System.{Step, Reach, Reach-IsBalanced}
use oiaj.Cms.Tests.Sort.{insertion_sort-Sorts}
use oiaj.Cms.Tests.Data.{
  go, schema, settings, bcrypt, queue, contest_db, contest, joint, joint_config,
}

-- A handler that fails twice.
abbrev flaky : Action ℕ Unit
flaky n = if ltb n 2 then (err (plain (text "busy")), suc n) else (ok tt, suc n)

retry-Ends_example : (retry 10 flaky 0 ≡ (ok tt, 3)) ↔ Ends flaky 10 0 3
retry-Ends_example = retry-Ends flaky 10 0 3

push_existing_rows-waiting_example :
    (evs : List Event) × (push_existing_rows go contest ≡ (
      ok (map event evs),
      record contest {
        db = record (contest_db) {
          queue = map (λ (row : QueueRow). record row { seen = true }) queue;
        };
        aborted = false;
      },
    ))
    × Permᴰ evs (map event_of (select (λ row. not row.seen) queue))
    × IsTasksFirst evs
push_existing_rows-waiting_example = push_existing_rows-waiting go insertion_sort-Sorts contest refl

-- The COMMIT is carried out, and the connection breaks before its answer.
abbrev breaking : CmsWorld ℤ
breaking = record (contest) { schedule = none ∷ none ∷ none ∷ none ∷ some (cut 0 57) ∷ [] }

abbrev sent : Event
sent = record { event_id = pos 2; object_id = pos 42; event_type = submission }

abbrev changed : Event
changed = record { event_id = pos 3; object_id = pos 7; event_type = task }

abbrev items : List Item
items = event changed ∷ event sent ∷ []

push_items : (push_existing_rows go contest).0 ≡ ok items
unfolding push_existing_rows eq_ℤ exec query event_of with_tx bytes_eq
push_items = refl

handle_event-IsPolite_example : Keeps joint (handle_event joint_config sent joint).1
handle_event-IsPolite_example =
    handle_event-IsPolite go schema settings bcrypt (pos 1000000000) false sent joint refl

-- The notification and its two rounds.
abbrev noticed : CmsWorld ℤ
noticed = (push_existing_rows go contest).1

abbrev waiting_server : Server ℤ (CmsWorld ℤ)
waiting_server = record (joint) { contest = noticed }

abbrev drained : Server ℤ (CmsWorld ℤ)
drained = (consume (handle_event joint_config) items waiting_server).1

consumed : consume (handle_event joint_config) items waiting_server ≡ (ok tt, drained)
unfolding consume handle_event push_existing_rows eq_ℤ exec query query_row event_of with_tx
    bytes_eq retry cms_bridge oiaj.Cms.Tasks.get_task store_task with_local_tx
    oiaj.Cms.Submissions.get_submission store_submission bytes_ltb
consumed = refl

consume-push_example : All (WasSeen queue) drained.contest.db.queue
unfolding push_existing_rows eq_ℤ exec query event_of with_tx bytes_eq
consume-push_example =
    consume-push go insertion_sort-Sorts (handle_event joint_config) joint drained items noticed
      (handle_event-IsPolite go schema settings bcrypt (pos 1000000000) false) refl refl consumed

-- The row from before the start is the one that is left.
drained_queue : map (λ r. r.id) drained.contest.db.queue ≡ pos 1 ∷ []
unfolding consume handle_event push_existing_rows eq_ℤ exec query query_row event_of with_tx
    bytes_eq retry cms_bridge oiaj.Cms.Tasks.get_task store_task with_local_tx
    oiaj.Cms.Submissions.get_submission store_submission bytes_ltb
drained_queue = refl

abbrev after_task : Server ℤ (CmsWorld ℤ)
after_task = (handle_item (handle_event joint_config) (event changed) waiting_server).1

abbrev after_both : Server ℤ (CmsWorld ℤ)
after_both = (handle_item (handle_event joint_config) (event sent) after_task).1

path :
    Reach go joint_config
      (record { server = joint; outbox = [] })
      (record { server = after_both; outbox = [] })
unfolding push_existing_rows eq_ℤ exec query event_of with_tx bytes_eq
path =
    Reach.next
      (Reach.next (Reach.next Reach.here (Step.push joint items noticed refl))
        (Step.round waiting_server after_task (event changed) (event sent ∷ []) _ refl))
      (Step.round after_task after_both (event sent) [] _ refl)

Reach-IsBalanced_example : IsBalanced num_ℤ after_both.judge.db
Reach-IsBalanced_example =
    Reach-IsBalanced go joint_config num_ℤ-IsExact (record { server = joint; outbox = [] })
      (record { server = after_both; outbox = [] }) path db-IsBalanced
