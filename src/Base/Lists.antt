-- ===== src/Base/Lists.antt =====
-- Lists as tables: the rows that a test selects, and updates of them.
use Prim.Native.Nat.{ℕ, zero, suc, ◌+◌}
use mathlib.Core.Logic.{inl, inr}
use mathlib.Core.Path.{ap, ◌∙◌, ◌≡◌, refl}
use mathlib.Core.Bool.{Bool, true, false, ◌&&◌, ◌||◌}
use mathlib.Core.List.{Permᴰ, List, [], ◌∷◌, ◌++◌}
use mathlib.Core.Option.{Option, none, some}
use native.Mathlib.Omega.{arith}
use oiaj.Base.Tests.{Bool-cases, if◌then◌else◌}

-- A predicate of every member, by recursion.
abbrev pub All {ℓ κ} : {A : Type ℓ} → (A → Type κ) → List A → Type κ
All P [] = Unit
All P (x ∷ xs) = P x × All P xs

module _ {ℓ} {A : Type ℓ} where
  abbrev pub length : List A → ℕ
  length [] = 0
  length (x ∷ xs) = suc (length xs)

  abbrev pub take : ℕ → List A → List A
  take zero xs = []
  take (suc n) [] = []
  take (suc n) (x ∷ xs) = x ∷ take n xs

  abbrev pub get_elem? : List A → ℕ → Option A
  get_elem? [] i = none
  get_elem? (x ∷ xs) zero = some x
  get_elem? (x ∷ xs) (suc i) = get_elem? xs i

  abbrev pub any : (A → Bool) → List A → Bool
  any p [] = false
  any p (x ∷ xs) = p x || any p xs

  abbrev pub all : (A → Bool) → List A → Bool
  all p [] = true
  all p (x ∷ xs) = p x && all p xs

  -- The first row that the test selects.
  abbrev pub first : (A → Bool) → List A → Option A
  first p [] = none
  first p (x ∷ xs) = if p x then some x else first p xs

  -- The rows that the test selects.
  abbrev pub select : (A → Bool) → List A → List A
  select p [] = []
  select p (x ∷ xs) = let rest = select p xs in if p x then x ∷ rest else rest

  -- The rows that the test does not select.
  abbrev pub reject : (A → Bool) → List A → List A
  reject p [] = []
  reject p (x ∷ xs) = let rest = reject p xs in if p x then rest else x ∷ rest

  -- Each row that the test selects is replaced by its update.
  abbrev pub update : (A → Bool) → (A → A) → List A → List A
  update p f [] = []
  update p f (x ∷ xs) = (if p x then f x else x) ∷ update p f xs

  pub length-append : (xs ys : List A) → length (xs ++ ys) ≡ length xs + length ys
  length-append [] ys = omega arith
  length-append (x ∷ xs) ys = omega (arith, length-append xs ys)

module _ {ℓ} {A : Type ℓ} where
  pub All-append {κ} : (P : A → Type κ) (xs ys : List A) → All P xs → All P ys → All P (xs ++ ys)
  All-append P [] ys h k = k
  All-append P (x ∷ xs) ys h k = (h.0, All-append P xs ys h.1 k)

  pub All-mono {κ ν} :
      (P : A → Type κ) (Q : A → Type ν) (xs : List A) → ((x : A) → P x → Q x) → All P xs → All Q xs
  All-mono P Q [] f h = tt
  All-mono P Q (x ∷ xs) f h = (f x h.0, All-mono P Q xs f h.1)

  pub first_sound : (p : A → Bool) (xs : List A) (x : A) → first p xs ≡ some x → p x ≡ true
  first_sound p [] x h = ground arith
  first_sound p (y ∷ xs) x h = ground (arith, first_sound p xs x)

  pub first-update_other :
      (p q : A → Bool) (f : A → A) (xs : List A)
      → ((x : A) → p x ≡ true → q x ≡ false)
      → ((x : A) → q (f x) ≡ q x)
      → first q (update p f xs) ≡ first q xs
  first-update_other p q f [] apart keep = refl
  first-update_other p q f (x ∷ xs) apart keep =
      ground (arith, apart x, keep x, first-update_other p q f xs apart keep)

  pub first-update :
      (p : A → Bool) (f : A → A) (xs : List A) (x : A)
      → ((y : A) → p (f y) ≡ p y)
      → first p xs ≡ some x
      → first p (update p f xs) ≡ some (f x)
  first-update p f [] x keep h = ground arith
  first-update p f (y ∷ xs) x keep h = ground (arith, keep y, first-update p f xs x keep)

  pub any-first : (p : A → Bool) (xs : List A) (x : A) → first p xs ≡ some x → any p xs ≡ true
  any-first p [] x h = ground arith
  any-first p (y ∷ xs) x h = ground (arith, any-first p xs x)

  pub first-append_none :
      (p : A → Bool) (xs ys : List A) → any p xs ≡ false → first p (xs ++ ys) ≡ first p ys
  first-append_none p [] ys h = refl
  first-append_none p (x ∷ xs) ys h = ground (arith, first-append_none p xs ys)

-- A test finds the same in any order.
pub any-perm : {A : Type 0} (p : A → Bool) {xs ys : List A} → Permᴰ xs ys → any p xs ≡ any p ys
any-perm p Permᴰ.nil = refl
any-perm p (Permᴰ.cons e d) = ground (arith, any-perm p d, ap p e)
any-perm p (Permᴰ.swap e f) = ground (arith, ap p e, ap p f)
any-perm p (Permᴰ.trans d e) = any-perm p d ∙ any-perm p e

-- What holds of every element holds of one that is found.
pub All-found :
    {A : Type 0} (P : A → Type 0) (p : A → Bool) (a : A) (xs : List A)
    → ((x : A) → p x ≡ true → P x → P a)
    → All P xs
    → any p xs ≡ true
    → P a
All-found P p a [] same h found = absurd (ground arith)
All-found P p a (x ∷ xs) same (here, rest) found = elim (Bool-cases (p x)) [
  | inl hit ↦ same x hit here
  | inr miss ↦ All-found P p a xs same rest (rw miss at found)
]
