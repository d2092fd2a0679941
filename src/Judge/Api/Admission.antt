-- ===== src/Judge/Api/Admission.antt =====
-- What `CanUserSubmit` of oiajudge/pkg/oiajudge/api.go answers when PostgreSQL does.
use oiaj.Base.{
  ◌≡◌, refl, sym, ap, ◌∙◌, Bool, true, false, some, [], if◌then◌else◌, ◌^◌, ◌-◌, inl, inr,
  Bool-cases,
}
use oiaj.Base.Int.{ℤ, pos, ◌+ℤ◌, ◌-ℤ◌, ltb_ℤ}
use oiaj.Bridge.{ObjectId}
use oiaj.Store.Errors.{Outcome, ok, err, oia_caused, wait_before_retry, plain}
use oiaj.Store.Action.{pure, >>=-ok, recover-ok}
use oiaj.Store.Session.Laws.{IsUp, exec-ok, query_row-some}
use oiaj.Store.Session.Finish.{with_tx-up, with_tx_err-up}
use oiaj.Judge.Tables.{JudgeWorld}
use oiaj.Judge.Users.{select_stamp, last_user_submission, set_user_submission}
use oiaj.Judge.Users.Clock.{from_milli}
use oiaj.Judge.Server.{Config, Server, get_time}
use oiaj.Judge.Api.{
  MakeSubmissionQuery, too_many_requests, decide_submission, admit_submission, can_user_submit,
}
use oiaj.Judge.Api.Cooldown.{stamp_of, stamped}

module _ {F : Type 0} where
  select_stamp-ok :
      (uid : ObjectId) (ms : ℤ) (w : JudgeWorld F)
      → IsUp w
      → stamp_of uid w.db ≡ some ms
      → select_stamp uid w ≡ (ok ms, w)
  unfolding select_stamp stamp_of
  select_stamp-ok uid ms w up known =
      query_row-some w up _ _ ms w.db w.sequences (ap (λ r. (ok r, w.db, w.sequences)) known)

  last_user_submission-ok :
      (uid : ObjectId) (ms : ℤ) (w : JudgeWorld F)
      → IsUp w
      → stamp_of uid w.db ≡ some ms
      → last_user_submission uid w ≡ (ok (from_milli ms), w)
  unfolding last_user_submission
  last_user_submission-ok uid ms w up known =
      >>=-ok (select_stamp uid) w (λ x. pure (from_milli x)) (select_stamp-ok uid ms w up known)

  set_user_submission-ok :
      (uid : ObjectId) (t : ℤ) (w : JudgeWorld F)
      → IsUp w
      → set_user_submission uid t w ≡ (ok tt, record w { db = stamped uid t w.db })
  unfolding set_user_submission stamped
  set_user_submission-ok uid t w up = exec-ok w up _ _ _ w.sequences refl

  decide_submission-ok :
      (cooldown now : ℤ) (uid : ObjectId) (last : ℤ) (w : JudgeWorld F)
      → IsUp w
      → ltb_ℤ now (last +ℤ cooldown) ≡ false
      → decide_submission cooldown now uid last w ≡ (ok tt, record w { db = stamped uid now w.db })
  unfolding decide_submission
  decide_submission-ok cooldown now uid last w up over =
      let set =
        recover-ok (set_user_submission uid now) w (λ e. pure tt)
          (set_user_submission-ok uid now w up) in
      rw over set

  decide_submission-err :
      (cooldown now : ℤ) (uid : ObjectId) (last : ℤ) (w : JudgeWorld F)
      → ltb_ℤ now (last +ℤ cooldown) ≡ true
      → decide_submission cooldown now uid last w
        ≡ (err (too_many_requests (last +ℤ cooldown -ℤ now)), w)
  unfolding decide_submission
  decide_submission-err cooldown now uid last w early = rw early

module _ {F B : Type 0} (config : Config F B) (q : MakeSubmissionQuery) (s : Server F B)
    (ms : ℤ) where
  -- The answer to a request: too early, or admitted and the instant stored.
  abbrev pub admission : Bool → Outcome Unit × Server F B
  admission true = (
    (let wait = from_milli ms +ℤ config.submission_cooldown -ℤ get_time s in
        let told = if ltb_ℤ wait (pos (2 ^ 63)) then wait else pos (2 ^ 63 - 1) in
        err (oia_caused 429 (wait_before_retry told) (plain (wait_before_retry told)))),
    record s { judge = record s.judge { aborted = false } },
  )
  admission false = (
    ok tt,
    record s {
      judge = record s.judge { db = stamped q.user (get_time s) s.judge.db; aborted = false };
    },
  )

  can_user_submit-ok :
      s.judge.schedule ≡ []
      → stamp_of q.user s.judge.db ≡ some ms
      → ltb_ℤ (get_time s) (from_milli ms +ℤ config.submission_cooldown) ≡ false
      → can_user_submit config q s ≡ admission false
  unfolding can_user_submit admit_submission
  can_user_submit-ok quiet known over =
      let w : JudgeWorld F = record s.judge { aborted = false } in
      let up : IsUp w = record { answered = quiet; live = refl } in
      let read = last_user_submission-ok q.user ms w up known in
      let decided =
        decide_submission-ok config.submission_cooldown (get_time s) q.user (from_milli ms) w up
          over in
      let done =
        with_tx-up (admit_submission config.submission_cooldown (get_time s) q.user) s.judge _ tt
          quiet
          (>>=-ok (last_user_submission q.user) w
              (decide_submission config.submission_cooldown (get_time s) q.user) read
            ∙ decided)
          (record { answered = quiet; live = refl }) in
      ap (λ x. (x.0, record s { judge = x.1 })) done

  can_user_submit-err :
      s.judge.schedule ≡ []
      → stamp_of q.user s.judge.db ≡ some ms
      → ltb_ℤ (get_time s) (from_milli ms +ℤ config.submission_cooldown) ≡ true
      → can_user_submit config q s ≡ admission true
  unfolding can_user_submit admit_submission too_many_requests
  can_user_submit-err quiet known early =
      let w : JudgeWorld F = record s.judge { aborted = false } in
      let up : IsUp w = record { answered = quiet; live = refl } in
      let read = last_user_submission-ok q.user ms w up known in
      let decided =
        decide_submission-err config.submission_cooldown (get_time s) q.user (from_milli ms) w
          early in
      let done =
        with_tx_err-up (admit_submission config.submission_cooldown (get_time s) q.user) s.judge w _
          quiet
          (>>=-ok (last_user_submission q.user) w
              (decide_submission config.submission_cooldown (get_time s) q.user) read
            ∙ decided)
          quiet in
      ap (λ x. (x.0, record s { judge = x.1 })) done

  -- Where PostgreSQL answers and the user is known, a request before the end of the cooldown after
  -- the user's stored instant is refused with status 429, is told how long
  -- to wait (at most the largest int64), and changes no table, and any other is
  -- admitted and its instant is stored.
  pub can_user_submit-admission :
      s.judge.schedule ≡ []
      → stamp_of q.user s.judge.db ≡ some ms
      → can_user_submit config q s
        ≡ admission (ltb_ℤ (get_time s) (from_milli ms +ℤ config.submission_cooldown))
  can_user_submit-admission quiet known =
      elim (Bool-cases (ltb_ℤ (get_time s) (from_milli ms +ℤ config.submission_cooldown))) [
        | inl early ↦ can_user_submit-err quiet known early ∙ ap admission (sym early)
        | inr over ↦ can_user_submit-ok quiet known over ∙ ap admission (sym over)
      ]
