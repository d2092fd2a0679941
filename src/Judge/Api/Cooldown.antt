-- ===== src/Judge/Api/Cooldown.antt =====
-- The cooldown between two submissions of a user: `CanUserSubmit` of oiajudge/pkg/oiajudge/api.go.
use oiaj.Base.{
  ◌≡◌, refl, sym, ap, ◌∙◌, false, Option, some, arith, first, update, first-update, Bool-cases,
  Option-cases, inl, inr,
}
use mathlib.Core.Option
use mathlib.Core.Option.{some-injective}
use oiaj.Base.Int.{ℤ, pos, ◌+ℤ◌, ◌≤ℤ◌, ◌<ℤ◌, ltb_ℤ, int_laws}
use oiaj.Bridge.{ObjectId}
use oiaj.Store.Errors.{ok}
use oiaj.Store.Action.{pure, >>=-inv, recover-drop}
use oiaj.Store.Session.{pass}
use oiaj.Store.Session.Inverse.{select-inv, exec-live}
use oiaj.Store.Session.Atomic.{started, with_tx-ok}
use oiaj.Judge.Tables.{UserRow, Db, JudgeWorld}
use oiaj.Judge.Users.{is_user, select_stamp, last_user_submission, set_user_submission}
use oiaj.Judge.Users.Clock.{unix_milli, from_milli, from_milli-unix_milli}
use oiaj.Judge.Server.{Config, Server, get_time}
use oiaj.Judge.Api.{MakeSubmissionQuery, admit_submission, decide_submission, can_user_submit}

late_enough : (now due : ℤ) → ltb_ℤ now due ≡ false → due ≤ℤ now
late_enough now due h = ground arith

module _ {F : Type 0} where
  -- The instant that is stored for a user.
  unfoldable pub stamp_of : ObjectId → Db F → Option ℤ
  stamp_of uid d = Option.map (λ u. u.last_submission_ms) (first (is_user uid) d.users)

  -- The database after `SetUserSubmission`.
  unfoldable pub stamped : ObjectId → ℤ → Db F → Db F
  stamped uid t d = record d {
    users = update (is_user uid) (λ u. record u { last_submission_ms = unix_milli t }) d.users;
  }

  select_stamp-inv :
      (uid : ObjectId) (w w' : JudgeWorld F) (ms : ℤ)
      → select_stamp uid w ≡ (ok ms, w')
      → (u : UserRow F) × (first (is_user uid) w.db.users ≡ some u)
        × (u.last_submission_ms ≡ ms)
        × (w' ≡ pass w)
        × (w.aborted ≡ false)
  unfolding select_stamp
  select_stamp-inv uid w w' ms h =
      select-inv w w' _ (λ u. u.last_submission_ms) (λ d. first (is_user uid) d.users) ms h

  last_user_submission-inv :
      (uid : ObjectId) (w w' : JudgeWorld F) (t : ℤ)
      → last_user_submission uid w ≡ (ok t, w')
      → (ms : ℤ) × (stamp_of uid w.db ≡ some ms)
        × (t ≡ from_milli ms)
        × (w' ≡ pass w)
        × (w.aborted ≡ false)
  unfolding last_user_submission stamp_of
  last_user_submission-inv uid w w' t h =
      let (ms, w1, selected, e) = >>=-inv (select_stamp uid) (λ ms. pure (from_milli ms)) w h in
      let (u, found, value, same, live) = select_stamp-inv uid w w1 ms selected in
      (ms, rw found (ap some value), ground arith, ground arith, live)

  set_user_submission-live :
      (uid : ObjectId) (now : ℤ) (w : JudgeWorld F)
      → (set_user_submission uid now w).1.aborted ≡ false
      → set_user_submission uid now w ≡ (ok tt, record (pass w) { db = stamped uid now w.db })
  unfolding set_user_submission stamped
  set_user_submission-live uid now w live = exec-live w _ _ _ _ refl live

  decide_submission-inv :
      (cooldown now : ℤ) (uid : ObjectId) (last : ℤ) (w w' : JudgeWorld F)
      → decide_submission cooldown now uid last w ≡ (ok tt, w')
      → w'.aborted ≡ false
      → (last +ℤ cooldown ≤ℤ now) × (w'.db ≡ stamped uid now w.db)
  unfolding decide_submission
  decide_submission-inv cooldown now uid last w w' h live =
      elim (Bool-cases (ltb_ℤ now (last +ℤ cooldown))) [
        | inl early ↦ absurd (ground arith)
        | inr late ↦
            let e : (set_user_submission uid now w).1 ≡ w' =
              recover-drop (set_user_submission uid now) w (rw late at h) in
            (
              late_enough now (last +ℤ cooldown) late,
              ground (arith, set_user_submission-live uid now w (rw e live), e),
            )
      ]

  -- A request that is admitted found a stored instant whose cooldown is over, and stored its own.
  admit_submission-inv :
      (cooldown now : ℤ) (uid : ObjectId) (w w' : JudgeWorld F)
      → admit_submission cooldown now uid w ≡ (ok tt, w')
      → w'.aborted ≡ false
      → (ms : ℤ) × (stamp_of uid w.db ≡ some ms)
        × (from_milli ms +ℤ cooldown ≤ℤ now)
        × (w'.db ≡ stamped uid now w.db)
  unfolding admit_submission
  admit_submission-inv cooldown now uid w w' h live =
      let (last, w1, read, decided) =
        >>=-inv (last_user_submission uid) (decide_submission cooldown now uid) w h in
      let (ms, found, value, same, up) = last_user_submission-inv uid w w1 last read in
      let (over, stored) = decide_submission-inv cooldown now uid last w1 w' decided live in
      (ms, found, rw (← value) over, ground arith)

  -- What is stored for a user who is there.
  stamp_of-stamped :
      (uid : ObjectId) (t ms : ℤ) (d : Db F)
      → stamp_of uid d ≡ some ms
      → stamp_of uid (stamped uid t d) ≡ some (unix_milli t)
  unfolding stamp_of stamped
  stamp_of-stamped uid t ms d h = elim (Option-cases (first (is_user uid) d.users)) [
    | inl missing ↦ absurd (ground arith)
    | inr (u, found) ↦ rw (
        first-update (is_user uid) (λ v. record v { last_submission_ms = unix_milli t }) d.users u
          (λ v. refl) found)
  ]

module _ {F B : Type 0} (config : Config F B) where
  -- An admitted request is one whose transaction was carried out and committed.
  pub can_user_submit-inv :
      (q : MakeSubmissionQuery) (s s' : Server F B)
      → can_user_submit config q s ≡ (ok tt, s')
      → (ms : ℤ) × (stamp_of q.user s.judge.db ≡ some ms)
        × (from_milli ms +ℤ config.submission_cooldown ≤ℤ get_time s)
        × (stamp_of q.user s'.judge.db ≡ some (unix_milli (get_time s)))
  unfolding can_user_submit
  can_user_submit-inv q s s' h =
      let body = admit_submission config.submission_cooldown (get_time s) q.user in
      let (done, (same, live)) = with_tx-ok body s.judge tt (ground arith) in
      let (ms, found, over, stored) =
        admit_submission-inv config.submission_cooldown (get_time s) q.user (started s.judge)
          (body (started s.judge)).1 (ground arith) live in
      let after : s'.judge.db ≡ stamped q.user (get_time s) s.judge.db = ground arith in
      (ms, found, over, rw after (stamp_of-stamped q.user (get_time s) ms s.judge.db found))

  -- When two requests of a user are both admitted, and the user's stored instant at the second is the
  -- one that the first left, they are the cooldown apart, up to the millisecond to which the first
  -- instant is stored, whatever else fails.
  pub can_user_submit-IsSpaced :
      (p q : MakeSubmissionQuery) (s s1 s2 s3 : Server F B)
      → p.user ≡ q.user
      → can_user_submit config p s ≡ (ok tt, s1)
      → stamp_of q.user s2.judge.db ≡ stamp_of q.user s1.judge.db
      → can_user_submit config q s2 ≡ (ok tt, s3)
      → get_time s +ℤ config.submission_cooldown <ℤ get_time s2 +ℤ pos 1000000
  can_user_submit-IsSpaced p q s s1 s2 s3 same first_ok kept second_ok =
      let (ms, found, over, stored) = can_user_submit-inv p s s1 first_ok in
      let (ms', found', over', stored') = can_user_submit-inv q s2 s3 second_ok in
      let e : unix_milli (get_time s) ≡ ms' =
        some-injective _ _ (sym (rw same at stored) ∙ sym kept ∙ found') in
      omega (int_laws, from_milli-unix_milli (get_time s), rw (← e) at over')
