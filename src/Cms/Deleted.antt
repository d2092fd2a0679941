-- ===== src/Cms/Deleted.antt =====
-- The event of a submission that the contest system no longer has: `GetSubmission` of
-- oiajudge/pkg/cmsbridge/submission.go, `handleSubmission` of oiajudge/pkg/oiajudge/updater.go and
-- the rounds of `HandleEvents` of oiajudge/pkg/cmsbridge/impl.go.
use oiaj.Base.{ℕ, zero, suc, ◌≡◌, refl, ap, ◌∙◌, Bool, false, reject, []}
use oiaj.Base.Int.{ℤ, eq_ℤ}
use oiaj.Bridge.{ObjectId, Event, Submission, submission}
use oiaj.Store.Errors.{Error, Outcome, ok, err}
use oiaj.Store.Action.{>>=-ok, >>=-failed}
use oiaj.Store.Session.{with_tx}
use oiaj.Store.Session.Laws.{IsUp, query_row-none}
use oiaj.Store.Session.Finish.{with_tx_err-up}
use oiaj.Judge.Server.{Bcrypt, Config, Server, on_judge, on_contest}
use oiaj.Judge.Updater.{store_submission}
use oiaj.Judge.Events.{handle_submission, dispatch, handle_event}
use oiaj.Cms.Tables.{CmsWorld, Schema}
use oiaj.Cms.Platform.{Platform}
use oiaj.Cms.Submissions.{headers, head, Header, select_header, read_submission}
use oiaj.Cms.Submissions
use oiaj.Cms.Impl.{Settings, cms_bridge, judge_config}
use oiaj.Cms.Channel.{event, retry, forget, handle_item}
use oiaj.Cms.Channel.Retry.{Fails, nil, again, retry-gave_up}
use oiaj.Cms.Channel.Drain.{forget-ok}

module _ {F : Type 0} (sid : ObjectId) where
  select_header-gone :
      (w : CmsWorld F)
      → IsUp w
      → headers sid w.db ≡ []
      → (e : Error) × (select_header sid w ≡ (err e, w))
  unfolding select_header
  select_header-gone w up gone = (
    _,
    query_row-none w up _ _ w.db w.sequences (ap (λ hs. (ok (head hs), w.db, w.sequences)) gone),
  )

module _ {F : Type 0} (go : Platform F) (schema : Schema F) (settings : Settings) (bcrypt : Bcrypt)
    (cooldown : ℤ) (debug : Bool) (sid : ObjectId) where
  abbrev config : Config F (CmsWorld F)
  config = judge_config go schema settings bcrypt cooldown debug

  -- A server in no failed transaction.
  abbrev live : Server F (CmsWorld F) → Server F (CmsWorld F)
  live s = record s { contest = record s.contest { aborted = false } }

  dispatch-fails :
      (s : Server F (CmsWorld F))
      → s.contest.schedule ≡ []
      → headers sid s.contest.db ≡ []
      → (e : Error) × (dispatch config submission sid s ≡ (err e, live s))
  unfolding dispatch handle_submission cms_bridge Submissions.get_submission
  dispatch-fails s quiet gone =
      let w0 : CmsWorld F = record s.contest { aborted = false } in
      let up : IsUp w0 = record { answered = quiet; live = refl } in
      let (e, none) = select_header-gone sid w0 up gone in
      let read =
        with_tx_err-up (Submissions.get_submission go sid) s.contest w0 e quiet
          (>>=-failed (select_header sid) w0 (read_submission go sid) none) quiet in
      (
        e,
        >>=-failed (on_contest (with_tx (Submissions.get_submission go sid))) s
            (λ x. on_judge (store_submission go.num x))
            (ap (λ (x : Outcome (Submission F) × CmsWorld F). (x.0, record s { contest = x.1 }))
              read),
      )

  -- So many calls fail, and leave the server as the first one did.
  dispatch-Fails :
      (rounds : ℕ) (s : Server F (CmsWorld F))
      → s.contest.schedule ≡ []
      → headers sid s.contest.db ≡ []
      → Fails (dispatch config submission sid) (live s) rounds (live s)
  dispatch-Fails zero s quiet gone = nil
  dispatch-Fails (suc rounds) s quiet gone =
      let (e, failed) = dispatch-fails (live s) quiet gone in
      again e failed (dispatch-Fails rounds s quiet gone)

  -- Where the contest system does not have the submission of an event and no failure of its database
  -- is to come, the round of the event ends without an error and takes the event out of the queue;
  -- the judge is as before, so that a row that it has of the submission stays, and the points that
  -- were given for it.
  pub handle_item-lost :
      (event_id : ObjectId) (s : Server F (CmsWorld F))
      → s.contest.schedule ≡ []
      → headers sid s.contest.db ≡ []
      → handle_item
          (handle_event config)
          (event (record { event_id = event_id; event_type = submission; object_id = sid }))
          s
        ≡ (
          ok tt,
          record s {
            contest = record s.contest {
              db = record s.contest.db {
                queue = reject (λ row. eq_ℤ row.id event_id) s.contest.db.queue;
              };
              aborted = false;
            };
          },
        )
  unfolding handle_item handle_event
  handle_item-lost event_id s quiet gone =
      let ev : Event = record { event_id = event_id; event_type = submission; object_id = sid } in
      let (e, failed) = dispatch-fails s quiet gone in
      >>=-ok (retry 10 (handle_event config ev)) s (λ _. forget ev)
        (retry-gave_up (dispatch config submission sid) 10
          (again e failed (dispatch-Fails 9 s quiet gone)))
      ∙ forget-ok ev (live s) quiet
