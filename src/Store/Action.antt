-- ===== src/Store/Action.antt =====
-- Functions that change a state and return a value, an error or a panic. The state comes back in
-- each case, since what was written stays written.
pub mod Calm
use oiaj.Base.{String, ◌≡◌, refl, ap, ◌⊎◌, inl, inr, arith}
use oiaj.Store.Errors.{Error, Outcome, ok, err, panic}

abbrev pub Action : Type 0 → Type 0 → Type 0
Action W A = W → Outcome A × W

module _ {W : Type 0} where
  infixl 5 ◌>>=◌ ◌>>◌
  abbrev pub ◌>>=◌ : {A B : Type 0} → Action W A → (A → Action W B) → Action W B
  ◌>>=◌ m f w =
      let (r, w') = m w in elim r [ ok a ↦ f a w' | err e ↦ (err e, w') | panic s ↦ (panic s, w') ]

  abbrev pub ◌>>◌ : {A B : Type 0} → Action W A → Action W B → Action W B
  m >> k = m >>= λ _. k

  abbrev pub pure : {A : Type 0} → A → Action W A
  pure a w = (ok a, w)

  abbrev pub throw : {A : Type 0} → Error → Action W A
  throw e w = (err e, w)

  abbrev pub fail_hard : {A : Type 0} → String → Action W A
  fail_hard m w = (panic m, w)

  abbrev pub lift : {A : Type 0} → Outcome A → Action W A
  lift r w = (r, w)

  abbrev pub gets : {A : Type 0} → (W → A) → Action W A
  gets f w = (ok (f w), w)

  -- An error that the code looks at itself.
  abbrev pub recover : {A : Type 0} → Action W A → (Error → Action W A) → Action W A
  recover m h w =
      let (r, w') = m w in elim r [ ok a ↦ (ok a, w') | err e ↦ h e w' | panic s ↦ (panic s, w') ]

module _ {W A B : Type 0} where
  continue-inv :
      (x : Outcome A × W) (f : A → Action W B) {b : B} {w' : W}
      → ((λ w. x) >>= f) x.1 ≡ (ok b, w')
      → (a : A) × (w1 : W) × (x ≡ (ok a, w1)) × (f a w1 ≡ (ok b, w'))
  continue-inv (ok a, w1) f h = (a, w1, refl, h)
  continue-inv (err e, w1) f h = ground arith
  continue-inv (panic m, w1) f h = ground arith

  -- A chain that returns a value has gone through its first step.
  pub >>=-inv :
      (m : Action W A) (f : A → Action W B) (w : W) {b : B} {w' : W}
      → (m >>= f) w ≡ (ok b, w')
      → (a : A) × (w1 : W) × (m w ≡ (ok a, w1)) × (f a w1 ≡ (ok b, w'))
  >>=-inv m f w h = continue-inv (m w) f h

module _ {W : Type 0} where
  drop-inv :
      (x : Outcome Unit × W) {w' : W} → recover (λ w. x) (λ e. pure tt) x.1 ≡ (ok tt, w') → x.1 ≡ w'
  drop-inv (ok u, w1) h = ground arith
  drop-inv (err e, w1) h = ground arith
  drop-inv (panic m, w1) h = ground arith

  -- Where an error is dropped, the state is the one that the action left.
  pub recover-drop :
      (m : Action W Unit) (w : W) {w' : W} → recover m (λ e. pure tt) w ≡ (ok tt, w') → (m w).1 ≡ w'
  recover-drop m w h = drop-inv (m w) h

module _ {W A B : Type 0} where
  continue-panic :
      (x : Outcome A × W) (f : A → Action W B) (s : String) (w' : W)
      → ((λ w. x) >>= f) x.1 ≡ (panic s, w')
      → (x ≡ (panic s, w')) ⊎ ((a : A) × (w1 : W) × (x ≡ (ok a, w1)) × (f a w1 ≡ (panic s, w')))
  continue-panic (ok a, w1) f s w' h = inr (a, w1, refl, h)
  continue-panic (err e, w1) f s w' h = absurd (ground arith)
  continue-panic (panic m, w1) f s w' h = inl (ground arith)

  -- A chain that panics does so in its first step, or after it.
  pub >>=-panic :
      (m : Action W A) (f : A → Action W B) (w : W) (s : String) (w' : W)
      → (m >>= f) w ≡ (panic s, w')
      → (m w ≡ (panic s, w')) ⊎ ((a : A) × (w1 : W) × (m w ≡ (ok a, w1)) × (f a w1 ≡ (panic s, w')))
  >>=-panic m f w s w' h = continue-panic (m w) f s w' h

module _ {W A : Type 0} where
  handle-inv :
      (x : Outcome A × W) (h : Error → Action W A) (a : A) (w' : W)
      → recover (λ w. x) h x.1 ≡ (ok a, w')
      → (x ≡ (ok a, w')) ⊎ ((e : Error) × (w1 : W) × (x ≡ (err e, w1)) × (h e w1 ≡ (ok a, w')))
  handle-inv (ok b, w1) h a w' k = inl k
  handle-inv (err e, w1) h a w' k = inr (e, w1, refl, k)
  handle-inv (panic m, w1) h a w' k = absurd (ground arith)

  pub recover-inv :
      (m : Action W A) (h : Error → Action W A) (w : W) (a : A) (w' : W)
      → recover m h w ≡ (ok a, w')
      → (m w ≡ (ok a, w')) ⊎ ((e : Error) × (w1 : W) × (m w ≡ (err e, w1)) × (h e w1 ≡ (ok a, w')))
  recover-inv m h w a w' k = handle-inv (m w) h a w' k

  handle-panic :
      (x : Outcome A × W) (h : Error → Action W A) (s : String) (w' : W)
      → recover (λ w. x) h x.1 ≡ (panic s, w')
      → (x ≡ (panic s, w'))
        ⊎ ((e : Error) × (w1 : W) × (x ≡ (err e, w1)) × (h e w1 ≡ (panic s, w')))
  handle-panic (ok b, w1) h s w' k = absurd (ground arith)
  handle-panic (err e, w1) h s w' k = inr (e, w1, refl, k)
  handle-panic (panic m, w1) h s w' k = inl (ground arith)

  pub recover-panic :
      (m : Action W A) (h : Error → Action W A) (w : W) (s : String) (w' : W)
      → recover m h w ≡ (panic s, w')
      → (m w ≡ (panic s, w'))
        ⊎ ((e : Error) × (w1 : W) × (m w ≡ (err e, w1)) × (h e w1 ≡ (panic s, w')))
  recover-panic m h w s w' k = handle-panic (m w) h s w' k

module _ {W A : Type 0} (m : Action W A) (w : W) where
  -- What comes after a step that returned a value, or that failed.
  pub >>=-ok :
      {B : Type 0} (f : A → Action W B) {a : A} {w1 : W} → m w ≡ (ok a, w1) → (m >>= f) w ≡ f a w1
  >>=-ok f e = ap (λ x. ((λ _. x) >>= f) w) e

  pub >>=-panicked :
      {B : Type 0} (f : A → Action W B) {p : String} {w1 : W}
      → m w ≡ (panic p, w1)
      → (m >>= f) w ≡ (panic p, w1)
  >>=-panicked f e = ap (λ x. ((λ _. x) >>= f) w) e

  pub >>=-failed :
      {B : Type 0} (f : A → Action W B) {e : Error} {w1 : W}
      → m w ≡ (err e, w1)
      → (m >>= f) w ≡ (err e, w1)
  >>=-failed f e = ap (λ x. ((λ _. x) >>= f) w) e

  pub recover-ok :
      (h : Error → Action W A) {a : A} {w1 : W} → m w ≡ (ok a, w1) → recover m h w ≡ (ok a, w1)
  recover-ok h e = ap (λ x. recover (λ _. x) h w) e

  pub recover-err :
      (h : Error → Action W A) {e : Error} {w1 : W} → m w ≡ (err e, w1) → recover m h w ≡ h e w1
  recover-err h e = ap (λ x. recover (λ _. x) h w) e

module _ {W : Type 0} (P : W → Type 0) where
  recovered_state :
      {A : Type 0} (x : Outcome A × W) (h : Error → Action W A)
      → P x.1
      → ((e : Error) → P (h e x.1).1)
      → P (recover (λ _. x) h x.1).1
  recovered_state (ok a, w) h p q = p
  recovered_state (err e, w) h p q = q e
  recovered_state (panic m, w) h p q = p

  continued_state :
      {A B : Type 0} (x : Outcome A × W) (f : A → Action W B)
      → P x.1
      → ((a : A) → P (f a x.1).1)
      → P (((λ _. x) >>= f) x.1).1
  continued_state (ok a, w) f p q = q a
  continued_state (err e, w) f p q = p
  continued_state (panic m, w) f p q = p

  -- What holds of the state after each step holds after the two of them.
  pub recover-state :
      {A : Type 0} (m : Action W A) (h : Error → Action W A) (w : W)
      → P (m w).1
      → ((e : Error) → P (h e (m w).1).1)
      → P (recover m h w).1
  recover-state m h w p q = recovered_state (m w) h p q

  pub >>=-state :
      {A B : Type 0} (m : Action W A) (f : A → Action W B) (w : W)
      → P (m w).1
      → ((a : A) → P (f a (m w).1).1)
      → P ((m >>= f) w).1
  >>=-state m f w p q = continued_state (m w) f p q
