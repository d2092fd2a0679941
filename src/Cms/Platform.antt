-- ===== src/Cms/Platform.antt =====
-- What oiajudge/pkg/cmsbridge calls of Go's library on float64, JSON and hashes, which stay
-- parameters, and `sort.Slice`, of which only the documented behaviour is used.
use oiaj.Base.{◌≡◌, ◌⊎◌, Bool, true, false, Option, List, [], ◌∷◌, All}
use oiaj.Base.Int.{ℤ}
use mathlib.Core.List.{Permᴰ}
use oiaj.Text.Bytes.{Bytes}
use oiaj.Bridge.{Arith, Event, TestcaseResult}

-- A subtask in the JSON of `score_details`.
pub record Group (F : Type 0) : Type 0 where
  pub idx : ℤ
  pub max_score : F
  pub score_fraction : F
  pub testcases : List Bytes

-- A JSON value where the program tells numbers from the rest.
pub data Json (F : Type 0) : Type 0 where
  number : F → Json F
  other : Json F

-- `OiajTaskEmbeddedData`
pub record OiajTaskEmbeddedData (F : Type 0) : Type 0 where
  pub tags : List Bytes
  pub multiplier : F

-- `pages_of` is how PostgreSQL cuts a large object. `groups` is what `json.Unmarshal` leaves in its slice, whose error the program drops; the other
-- two are `none` where it fails. `digest` is SHA-1 in hexadecimal.
pub record Platform (F : Type 0) : Type 0 where
  pub num : Arith F
  pub parse_float : Bytes → Option F
  pub of_int : ℤ → F
  pub groups : Bytes → List (Group F)
  pub embedded_data : Bytes → Option (OiajTaskEmbeddedData F)
  pub parameters : Bytes → Option (List (List (Json F)))
  pub digest : Bytes → Bytes
  pub pages_of : Bytes → List Bytes
  pub sort_events : (Event → Event → Bool) → List Event → List Event
  pub sort_names : (Bytes → Bytes → Bool) → List Bytes → List Bytes
  pub sort_testcases :
      (TestcaseResult F → TestcaseResult F → Bool)
      → List (TestcaseResult F)
      → List (TestcaseResult F)

-- The order that `sort.Slice` wants of its `less`.
pub record IsWeakOrder {A : Type 0} (less : A → A → Bool) : Type 0 where
  pub asym : (a b : A) → less a b ≡ true → less b a ≡ false
  pub split : (a b c : A) → less a c ≡ true → (less a b ≡ true) ⊎ (less b c ≡ true)

-- No element is less than one before it.
abbrev pub IsOrdered : {A : Type 0} → (A → A → Bool) → List A → Type 0
IsOrdered less [] = Unit
IsOrdered less (x ∷ xs) = All (λ y. less y x ≡ false) xs × IsOrdered less xs

-- What `sort.Slice` promises: the same elements, in order, and nothing on those that are equal.
pub record Sorts {A : Type 0} (sort : (A → A → Bool) → List A → List A) : Type 0 where
  pub perm : (less : A → A → Bool) (xs : List A) → Permᴰ (sort less xs) xs
  pub ordered :
      (less : A → A → Bool) (xs : List A) → IsWeakOrder less → IsOrdered less (sort less xs)
