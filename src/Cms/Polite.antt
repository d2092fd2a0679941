-- ===== src/Cms/Polite.antt =====
-- The judge's handler (oiajudge/pkg/oiajudge/updater.go) and the queue of the contest system.
use oiaj.Base.{◌≡◌, refl, ap, Bool, Option, none, some, List, [], Bool-cases, inl, inr, arith}
use oiaj.Bridge.{
  ObjectId, Event, EventType, submission, task, unknown, SubmissionStatus, unset, compiling,
  compilation_failed, evaluating, scoring, scored,
}
use oiaj.Store.Action.{pure, >>=-state}
use oiaj.Store.Session.{with_tx, query, query_row, stream, statement}
use oiaj.Store.Session.Reads.{IsReading, pure-IsReading, >>=-IsReading, with_tx-IsReading}
use oiaj.Judge.Server.{Bcrypt, Config, Server, on_judge, on_contest}
use oiaj.Judge.Updater.{store_submission, store_task}
use oiaj.Judge.Events.{handle_submission, handle_task, dispatch, handle_event}
use oiaj.Cms.Tables.{CmsWorld, CmsTx, Schema}
use oiaj.Cms.Platform.{Platform, Json}
use oiaj.Text.Bytes.{bytes_eq, codes}
use oiaj.Cms.Scoring.{fill_testcase_results}
use oiaj.Cms.Submissions.{
  Header, ScoreType, select_header, select_score_type, score_submission, describe, read_submission,
  status_of,
}
use oiaj.Cms.Tasks.{
  TaskHeader, select_task, count_testcases, select_attachments, select_statement, max_score_of,
  with_cases, with_parameters, task_with, add_statement, add_attachments, read_task,
}
use oiaj.Cms.Submissions
use oiaj.Cms.Tasks
use oiaj.Cms.Impl.{Settings, cms_bridge, judge_config}
use oiaj.Base.Int.{ℤ}
use oiaj.Cms.Channel.Drain.{Keeps}

module _ {F : Type 0} where
  select_header-IsReading : (sid : ObjectId) → IsReading (select_header {F = F} sid)
  unfolding select_header query_row statement
  select_header-IsReading sid w quiet = record { db = ground arith; quiet = ground arith }

  select_score_type-IsReading : (tid : ObjectId) → IsReading (select_score_type {F = F} tid)
  unfolding select_score_type query_row statement
  select_score_type-IsReading tid w quiet = record { db = ground arith; quiet = ground arith }

  select_task-IsReading : (tid : ObjectId) → IsReading (select_task {F = F} tid)
  unfolding select_task query_row statement
  select_task-IsReading tid w quiet = record { db = ground arith; quiet = ground arith }

  select_attachments-IsReading : (tid : ObjectId) → IsReading (select_attachments {F = F} tid)
  unfolding select_attachments query stream statement
  select_attachments-IsReading tid w quiet = record { db = ground arith; quiet = ground arith }

  select_statement-IsReading : (tid : ObjectId) → IsReading (select_statement {F = F} tid)
  unfolding select_statement query stream statement
  select_statement-IsReading tid w quiet = record { db = ground arith; quiet = ground arith }

module _ {F : Type 0} (go : Platform F) where
  score_submission-IsReading :
      (sid : ObjectId) (h : Header) (t : ScoreType) → IsReading (score_submission go sid h t)
  unfolding score_submission fill_testcase_results query stream statement
  score_submission-IsReading sid h t w quiet = record { db = ground arith; quiet = ground arith }

  describe-IsReading :
      (sid : ObjectId) (h : Header) (t : ScoreType) (status : SubmissionStatus)
      → IsReading (describe go sid h t status)
  unfolding describe
  describe-IsReading sid h t scored w quiet = score_submission-IsReading sid h t w quiet
  describe-IsReading sid h t unset w quiet = record { db = refl; quiet = quiet }
  describe-IsReading sid h t compiling w quiet = record { db = refl; quiet = quiet }
  describe-IsReading sid h t compilation_failed w quiet = record { db = refl; quiet = quiet }
  describe-IsReading sid h t evaluating w quiet = record { db = refl; quiet = quiet }
  describe-IsReading sid h t scoring w quiet = record { db = refl; quiet = quiet }

  read_submission-IsReading : (sid : ObjectId) (h : Header) → IsReading (read_submission go sid h)
  unfolding read_submission
  read_submission-IsReading sid h =
      >>=-IsReading (select_score_type h.task_id) (λ t. describe go sid h t (status_of h))
        (select_score_type-IsReading h.task_id) (λ t. describe-IsReading sid h t (status_of h))

  get_submission-IsReading : (sid : ObjectId) → IsReading (Submissions.get_submission go sid)
  unfolding Submissions.get_submission
  get_submission-IsReading sid =
      >>=-IsReading (select_header sid) (read_submission go sid) (select_header-IsReading sid)
        (read_submission-IsReading sid)

  with_cases-IsReading : (id : ObjectId) (o : Option F) → IsReading (with_cases go id o)
  unfolding with_cases count_testcases query_row statement
  with_cases-IsReading id none w quiet = record { db = refl; quiet = quiet }
  with_cases-IsReading id (some m) w quiet = record { db = ground arith; quiet = ground arith }

  with_parameters-IsReading : (o : Option (List (List (Json F)))) → IsReading (with_parameters go o)
  unfolding with_parameters
  with_parameters-IsReading none w quiet = record { db = refl; quiet = quiet }
  with_parameters-IsReading (some params) w quiet = record { db = refl; quiet = quiet }

  max_score_of-IsReading : (h : TaskHeader) → IsReading (max_score_of go h)
  unfolding max_score_of
  max_score_of-IsReading h w quiet = elim (Bool-cases (bytes_eq h.score_type (codes "Sum"))) [
    | inl sum ↦
        rw sum (with_cases-IsReading h.dataset_id (go.parse_float h.score_parameters) w quiet)
    | inr grouped ↦
        rw grouped (with_parameters-IsReading (go.parameters h.score_parameters) w quiet)
  ]

  add_attachments-IsReading :
      (tid : ObjectId) (h : TaskHeader) (m : F) → IsReading (add_attachments go tid h m)
  unfolding add_attachments add_statement
  add_attachments-IsReading tid h m =
      >>=-IsReading (select_attachments tid) (add_statement go tid h m)
        (select_attachments-IsReading tid)
        λ a.
          >>=-IsReading (select_statement tid) (λ v. pure (task_with go tid h m a v))
            (select_statement-IsReading tid) λ v. pure-IsReading (task_with go tid h m a v)

  get_task-IsReading : (tid : ObjectId) → IsReading (Tasks.get_task go tid)
  unfolding Tasks.get_task read_task
  get_task-IsReading tid =
      >>=-IsReading (select_task tid) (read_task go tid) (select_task-IsReading tid) λ h.
        >>=-IsReading (max_score_of go h) (add_attachments go tid h) (max_score_of-IsReading h)
          (add_attachments-IsReading tid h)

module _ {F : Type 0} (go : Platform F) (schema : Schema F) (settings : Settings) (bcrypt : Bcrypt)
    (cooldown : ℤ) (debug : Bool) where
  abbrev config : Config F (CmsWorld F)
  config = judge_config go schema settings bcrypt cooldown debug

  read_contest :
      {A : Type 0} (m : CmsTx F A) (s : Server F (CmsWorld F))
      → IsReading m
      → s.contest.schedule ≡ []
      → Keeps s (on_contest (with_tx m) s).1
  read_contest m s h quiet =
      let same = with_tx-IsReading m h s.contest quiet in
      record { queue = ap (λ d. d.queue) same.db; quiet = same.quiet }

  dispatch-IsPolite :
      (kind : EventType) (id : ObjectId) (s : Server F (CmsWorld F))
      → s.contest.schedule ≡ []
      → Keeps s (dispatch config kind id s).1
  unfolding dispatch handle_submission handle_task cms_bridge
  dispatch-IsPolite submission id s quiet =
      let read =
        read_contest (Submissions.get_submission go id) s (get_submission-IsReading go id) quiet in
      >>=-state (Keeps s) (on_contest (with_tx (Submissions.get_submission go id)))
        (λ x. on_judge (store_submission go.num x)) s read
        λ x. record { queue = read.queue; quiet = read.quiet }
  dispatch-IsPolite task id s quiet =
      let read = read_contest (Tasks.get_task go id) s (get_task-IsReading go id) quiet in
      >>=-state (Keeps s) (on_contest (with_tx (Tasks.get_task go id)))
        (λ x. on_judge (store_task go.num x)) s read
        λ x. record { queue = read.queue; quiet = read.quiet }
  dispatch-IsPolite (unknown name) id s quiet = record { queue = refl; quiet = quiet }

  -- The judge's handler over the contest system's database, where no failure of that is to come,
  -- leaves the queue alone, whatever happens in the judge.
  pub handle_event-IsPolite :
      (ev : Event) (s : Server F (CmsWorld F))
      → s.contest.schedule ≡ []
      → Keeps s (handle_event config ev s).1
  unfolding handle_event
  handle_event-IsPolite ev s quiet = dispatch-IsPolite ev.event_type ev.object_id s quiet
