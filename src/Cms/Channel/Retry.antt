-- ===== src/Cms/Channel/Retry.antt =====
-- How often `HandleEvents` of oiajudge/pkg/cmsbridge/impl.go calls the handler.
use oiaj.Base.{ℕ, zero, suc, ◌<◌, ◌≡◌, refl, sym, ap, ◌∙◌, ◌↔◌, arith, inl, inr}
use mathlib.Core.Path.{subst}
use oiaj.Store.Errors.{Error, ok, err, Outcome-cases}
use oiaj.Store.Action.{Action, recover-ok, recover-err}
use oiaj.Cms.Channel.{retry}

-- So many calls in a row that end in an error, from one state to another.
pub data Fails {W : Type 0} (handler : Action W Unit) : W → ℕ → W → Type 0 where
  nil : {w : W} → Fails handler w zero w
  again :
      {w w1 w2 : W} {n : ℕ} (e : Error)
      → handler w ≡ (err e, w1)
      → Fails handler w1 n w2
      → Fails handler w (suc n) w2

module _ {W : Type 0} (handler : Action W Unit) where
  -- How the loop may end: it used up its rounds, or some call within them succeeded or panicked.
  pub data Ends (rounds : ℕ) (w : W) : W → Type 0 where
    gave_up : {w1 : W} → Fails handler w rounds w1 → Ends rounds w w1
    succeeded :
        {w1 w2 : W} {n : ℕ}
        → Fails handler w n w1
        → n < rounds
        → handler w1 ≡ (ok tt, w2)
        → Ends rounds w w2

  pub retry-gave_up :
      (rounds : ℕ) {w w1 : W} → Fails handler w rounds w1 → retry rounds handler w ≡ (ok tt, w1)
  unfolding retry
  retry-gave_up zero nil = refl
  retry-gave_up (suc rounds) {w = w} (again e failed rest) =
      recover-err handler w (λ _. retry rounds handler) failed ∙ retry-gave_up rounds rest

  pub retry-succeeded :
      (rounds : ℕ) {n : ℕ} {w w1 w2 : W}
      → Fails handler w n w1
      → n < rounds
      → handler w1 ≡ (ok tt, w2)
      → retry rounds handler w ≡ (ok tt, w2)
  unfolding retry
  retry-succeeded zero f h done = absurd (omega arith)
  retry-succeeded (suc rounds) {w = w} nil h done =
      recover-ok handler w (λ _. retry rounds handler) done
  retry-succeeded (suc rounds) {w = w} (again e failed rest) h done =
      recover-err handler w (λ _. retry rounds handler) failed
      ∙ retry-succeeded rounds rest (omega arith) done

  after_failure :
      (rounds : ℕ) (e : Error) {w w1 w2 : W}
      → handler w ≡ (err e, w1)
      → Ends rounds w1 w2
      → Ends (suc rounds) w w2
  after_failure rounds e failed (gave_up f) = gave_up (again e failed f)
  after_failure rounds e failed (succeeded f h done) =
      succeeded (again e failed f) (omega (arith, h)) done

  retry-inv : (rounds : ℕ) (w w1 : W) → retry rounds handler w ≡ (ok tt, w1) → Ends rounds w w1
  unfolding retry
  retry-inv zero w w1 h = subst (Ends zero w) (ap (λ x. x.1) h) (gave_up nil)
  retry-inv (suc rounds) w w1 h =
      let go_on = λ (e : Error). retry rounds handler in
      elim (Outcome-cases (handler w).0) [
        | inl (u, e) ↦
            let ran : handler w ≡ (ok tt, (handler w).1) = ap (λ r. (r, (handler w).1)) e in
            succeeded nil (omega arith) (ran ∙ sym (recover-ok handler w go_on ran) ∙ h)
        | inr (inl (x, e)) ↦
            let ran : handler w ≡ (err x, (handler w).1) = ap (λ r. (r, (handler w).1)) e in
            after_failure rounds x ran
              (retry-inv rounds (handler w).1 w1 (sym (recover-err handler w go_on ran) ∙ h))
        | inr (inr (m, e)) ↦ absurd (ground arith)
      ]

  returned : (rounds : ℕ) (w w1 : W) → Ends rounds w w1 → retry rounds handler w ≡ (ok tt, w1)
  returned rounds w w1 (gave_up f) = retry-gave_up rounds f
  returned rounds w w1 (succeeded f h done) = retry-succeeded rounds f h done

  -- A loop of retries returns exactly in the states to which a run of failures leads that uses up
  -- its rounds, or a success after fewer failures than that.
  pub retry-Ends :
      (rounds : ℕ) (w w1 : W) → (retry rounds handler w ≡ (ok tt, w1)) ↔ Ends rounds w w1
  retry-Ends rounds w w1 = (retry-inv rounds w w1, returned rounds w w1)
