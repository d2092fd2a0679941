-- ===== src/Cms/Tests/Sort.antt =====
-- An insertion sort, as an instance of what is assumed of `sort.Slice`.
use oiaj.Base.{
  ◌≡◌, refl, Bool, false, List, [], ◌∷◌, if◌then◌else◌, Bool-cases, inl, inr, All, All-mono, arith,
}
use mathlib.Core.List.{Permᴰ}
use mathlib.Core.List.Permᴰ
use oiaj.Cms.Platform.{IsWeakOrder, IsOrdered, Sorts}

module _ {A : Type 0} (less : A → A → Bool) where
  abbrev pub insert : A → List A → List A
  insert x [] = x ∷ []
  insert x (y ∷ ys) = let rest = insert x ys in if less y x then y ∷ rest else x ∷ y ∷ ys

  abbrev pub insertion_sort : List A → List A
  insertion_sort [] = []
  insertion_sort (x ∷ xs) = insert x (insertion_sort xs)

  insert-perm : (x : A) (ys : List A) → Permᴰ (insert x ys) (x ∷ ys)
  insert-perm x [] = Permᴰ.refl (x ∷ [])
  insert-perm x (y ∷ ys) = elim (Bool-cases (less y x)) [
    | inl before ↦
        rw before (Permᴰ.trans (Permᴰ.cons refl (insert-perm x ys)) (Permᴰ.swap refl refl))
    | inr after ↦ rw after (Permᴰ.refl (x ∷ y ∷ ys))
  ]

  sort-perm : (xs : List A) → Permᴰ (insertion_sort xs) xs
  sort-perm [] = Permᴰ.nil
  sort-perm (x ∷ xs) =
      Permᴰ.trans (insert-perm x (insertion_sort xs)) (Permᴰ.cons refl (sort-perm xs))

  module _ (law : IsWeakOrder less) where
    All-insert : (P : A → Type 0) (x : A) (ys : List A) → P x → All P ys → All P (insert x ys)
    All-insert P x [] h k = (h, tt)
    All-insert P x (y ∷ ys) h k = elim (Bool-cases (less y x)) [
      | inl before ↦ rw before (k.0, All-insert P x ys h k.1)
      | inr after ↦ rw after (h, k)
    ]

    after_both : (x y : A) → less y x ≡ false → (z : A) → less z y ≡ false → less z x ≡ false
    after_both x y h z k = elim (Bool-cases (less z x)) [
      | inl before ↦ elim (law.split z y x before) [
        | inl first ↦ absurd (ground arith)
        | inr second ↦ absurd (ground arith)
      ]
      | inr after ↦ after
    ]

    insert-IsOrdered : (x : A) (ys : List A) → IsOrdered less ys → IsOrdered less (insert x ys)
    insert-IsOrdered x [] h = (tt, tt)
    insert-IsOrdered x (y ∷ ys) h = elim (Bool-cases (less y x)) [
      | inl before ↦ rw before (
        All-insert (λ z. less z y ≡ false) x ys (law.asym y x before) h.0,
        insert-IsOrdered x ys h.1,
      )
      | inr after ↦ rw after ((after, All-mono _ _ ys (after_both x y after) h.0), h)
    ]

    sort-IsOrdered : (xs : List A) → IsOrdered less (insertion_sort xs)
    sort-IsOrdered [] = tt
    sort-IsOrdered (x ∷ xs) = insert-IsOrdered x (insertion_sort xs) (sort-IsOrdered xs)

pub insertion_sort-Sorts : {A : Type 0} → Sorts {A = A} insertion_sort
insertion_sort-Sorts = record {
  perm = λ less xs. sort-perm less xs;
  ordered = λ less xs law. sort-IsOrdered less law xs;
}
