-- ===== src/Cms/Tests/Requests.antt =====
-- Runs of the requests to the bridge.
use oiaj.Base.{◌≡◌, refl, false, some, none, [], reject, ◌∷◌, Option, map, any, true, List}
use mathlib.Core.Option
use oiaj.Base.Int.{ℤ, pos, ◌+ℤ◌, eq_ℤ}
use oiaj.Text.Bytes.{Bytes, codes, bytes_eq, bytes_ltb}
use oiaj.Bridge.{Event, Submission, Sources, submission, unset}
use oiaj.Store.Errors.{Outcome, ok, err, panic}
use oiaj.Store.Session.{query, query_row, exec, with_tx}
use oiaj.Judge.Events.{handle_event}
use oiaj.Judge.Server.{Server}
use oiaj.Judge.Submissions.{create_submission}
use oiaj.Judge.Tests.Data.{attempt, world, num_ℤ}
use oiaj.Cms.Tables.{Attachment, CmsWorld}
use oiaj.Cms.Objects.Pages.{IsSound, append_nil}
use oiaj.Cms.Impl.{make_submission}
use oiaj.Cms.Channel.{event, handle_item, push_existing_rows}
use oiaj.Cms.Channel.Push.{marked}
use oiaj.Cms.Arrival.{tells_of, make_submission-push}
use oiaj.Cms.Tests.Sort.{insertion_sort-Sorts}
use oiaj.Cms.Files.{make_submission-IsSound}
use oiaj.Cms.Submissions.{Header, headers, submission_with, get_submission}
use oiaj.Cms.Report.{IsReport, get_submission-IsReport}
use oiaj.Cms.Deleted.{handle_item-lost}
use oiaj.Cms.Tests.Data.{
  queue, go, schema, settings, bcrypt, contest_db, contest, joint, joint_config,
}

-- The judge has a row of submission 43, and the contest system has none any more.
abbrev holding : Server ℤ (CmsWorld ℤ)
holding = record (joint) {
  judge = (create_submission num_ℤ (record (attempt) { id = pos 43 }) world).1;
}

handle_item-lost_example :
    handle_item
      (handle_event joint_config)
      (event (record { event_id = pos 1; event_type = submission; object_id = pos 43 }))
      holding
    ≡ (
      ok tt,
      record (holding) {
        contest = record contest {
          db = record (contest_db) { queue = reject (λ row. eq_ℤ row.id (pos 1)) queue };
          aborted = false;
        };
      },
    )
unfolding headers eq_ℤ
handle_item-lost_example =
    handle_item-lost go schema settings bcrypt (pos 1000000000) false (pos 43) (pos 1) holding refl
      refl

holding_rows : map (λ r. r.id) holding.judge.db.submissions ≡ pos 43 ∷ []
unfolding create_submission exec eq_ℤ
holding_rows = refl

abbrev absent : Header
absent = record {
  task_id = pos 0;
  user_id = pos 0;
  timestamp = pos 0;
  compilation_outcome = none;
  compilation_stderr = none;
  evaluation_outcome = none;
  score_details = none;
}

abbrev answer : Submission ℤ
answer = elim (get_submission go (pos 42) contest).0 [
  | ok x ↦ x
  | err e ↦ submission_with (pos 42) absent unset [] none
  | panic m ↦ submission_with (pos 42) absent unset [] none
]

answered : get_submission go (pos 42) contest ≡ (ok answer, contest)
unfolding get_submission query query_row eq_ℤ bytes_eq bytes_ltb
answered = refl

get_submission-IsReport_example : IsReport num_ℤ (pos 42) answer
get_submission-IsReport_example =
    get_submission-IsReport go (pos 42) contest contest answer answered

-- One of the two testcases passed, at five points each.
answer_points :
    Option.map (λ r. r.score) answer.result ≡ some (record { score = pos 5; max_score = pos 10 })
unfolding get_submission query query_row eq_ℤ bytes_eq bytes_ltb ◌+ℤ◌
answer_points = refl

-- A submission with one file, whose content is cut into one page.
abbrev sources : Sources
sources = (codes "suma.cpp", codes "int") ∷ []

abbrev sending : Outcome Unit × CmsWorld ℤ
sending = make_submission go schema settings (pos 1) (pos 7) sources contest

make_submission-IsSound_example : IsSound go sending.1.sequences.large_objects sending.1.db
make_submission-IsSound_example =
    make_submission-IsSound go (λ c. append_nil c) schema settings (pos 1) (pos 7) sources contest
      sending.1 sending.0 (record { below = tt; honest = tt }) refl

-- The same file as an attachment.
abbrev attachment : Attachment
attachment = record { task_id = pos 7; filename = codes "demo"; digest = 35 ∷ codes "int" }

abbrev attached : CmsWorld ℤ
attached = record (sending.1) { db = record (sending.1.db) { attachments = attachment ∷ [] } }

make_submission-push_example :
    (evs : List Event) × (push_existing_rows go sending.1
      ≡ (ok (map event evs), record (marked sending.1) { aborted = false }))
    × (any (tells_of (pos 43)) evs ≡ true)
unfolding make_submission eq_ℤ query query_row exec bytes_eq with_tx
    oiaj.Cms.Objects.make_submission
make_submission-push_example =
    make_submission-push go insertion_sort-Sorts schema settings (pos 1) (pos 7) sources contest
      sending.1 refl refl
