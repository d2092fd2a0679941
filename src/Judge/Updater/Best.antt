-- ===== src/Judge/Updater/Best.antt =====
-- The best score per subtask: the loops of `recalculateUserScoreForTask`.
use oiaj.Base.{
  ℕ, zero, suc, ◌≡◌, refl, ap, ◌∙◌, sym, ◌⊎◌, inl, inr, Option, none, some, List, [], ◌∷◌, arith,
  All, get_elem?, Option-cases,
}
use mathlib.Core.Path.{ap₂}
use mathlib.Core.List.{Permᴰ}
use mathlib.Core.Option.{some-injective}
use oiaj.Bridge.{Arith}
use oiaj.Judge.Updater.{raise_scores, by_subtask, total_from, base_score}

-- `math.Max` is commutative, associative and returns one of its arguments, also on NaN, infinities
-- and signed zeros.
pub record IsMax {F : Type 0} (num : Arith F) : Type 0 where
  pub comm : (a b : F) → num.max a b ≡ num.max b a
  pub assoc : (a b c : F) → num.max (num.max a b) c ≡ num.max a (num.max b c)
  pub selective : (a b : F) → (num.max a b ≡ a) ⊎ (num.max a b ≡ b)

module _ {F : Type 0} (num : Arith F) (law : IsMax num) where
  max_swap : (a x y : F) → num.max (num.max a x) y ≡ num.max (num.max a y) x
  max_swap a x y = law.assoc a x y ∙ ap (num.max a) (law.comm x y) ∙ sym (law.assoc a y x)

  raise_nil : (b : List F) → raise_scores num b [] ≡ b
  unfolding raise_scores
  raise_nil [] = refl
  raise_nil (x ∷ b) = refl

  raise_swap :
      (b v w : List F)
      → raise_scores num (raise_scores num b v) w ≡ raise_scores num (raise_scores num b w) v
  unfolding raise_scores
  raise_swap b [] w = rw (raise_nil b, raise_nil (raise_scores num b w))
  raise_swap b (x ∷ v) [] = rw (raise_nil b, raise_nil (raise_scores num b (x ∷ v)))
  raise_swap [] (x ∷ v) (y ∷ w) = ap₂ ◌∷◌ (max_swap num.zero x y) (raise_swap [] v w)
  raise_swap (a ∷ b) (x ∷ v) (y ∷ w) = ap₂ ◌∷◌ (max_swap a x y) (raise_swap b v w)

  by_subtask-perm :
      (b : List F) {vs ws : List (List F)} → Permᴰ vs ws → by_subtask num b vs ≡ by_subtask num b ws
  unfolding by_subtask
  by_subtask-perm b Permᴰ.nil = refl
  by_subtask-perm b (Permᴰ.cons {a = v} {l₂ = l} e p) =
      by_subtask-perm (raise_scores num b v) p ∙ ap (λ x. by_subtask num (raise_scores num b x) l) e
  by_subtask-perm b (Permᴰ.swap {a = v} {b = w} {l = l} e f) =
      ap (λ c. by_subtask num c l) (raise_swap b v w)
      ∙ ap₂ (λ x y. by_subtask num (raise_scores num (raise_scores num b x) y) l) f e
  by_subtask-perm b (Permᴰ.trans p q) = by_subtask-perm b p ∙ by_subtask-perm b q

  -- Where the maximum is commutative, associative and selective, the base score does not depend on
  -- the order in which PostgreSQL returns the submissions.
  pub base_score-perm :
      (vs ws : List (List F)) → Permᴰ vs ws → base_score num vs ≡ base_score num ws
  unfolding base_score
  base_score-perm vs ws p = ap (total_from num num.zero) (by_subtask-perm [] p)

-- What a submission does to the best score at one index.
combine : {F : Type 0} → Arith F → Option F → Option F → Option F
combine num none none = none
combine num none (some x) = some (num.max num.zero x)
combine num (some b) none = some b
combine num (some b) (some x) = some (num.max b x)

module _ {F : Type 0} (num : Arith F) where
  get_elem?-raise_scores :
      (b v : List F) (i : ℕ)
      → get_elem? (raise_scores num b v) i ≡ combine num (get_elem? b i) (get_elem? v i)
  unfolding raise_scores combine
  get_elem?-raise_scores [] [] i = refl
  get_elem?-raise_scores (a ∷ b) [] i = ground arith
  get_elem?-raise_scores [] (x ∷ v) zero = refl
  get_elem?-raise_scores [] (x ∷ v) (suc i) = get_elem?-raise_scores [] v i
  get_elem?-raise_scores (a ∷ b) (x ∷ v) zero = refl
  get_elem?-raise_scores (a ∷ b) (x ∷ v) (suc i) = get_elem?-raise_scores b v i

  best_from : Option F → List (List F) → ℕ → Option F
  best_from acc [] i = acc
  best_from acc (v ∷ scores) i = best_from (combine num acc (get_elem? v i)) scores i

  get_elem?-by_subtask :
      (b : List F) (scores : List (List F)) (i : ℕ)
      → get_elem? (by_subtask num b scores) i ≡ best_from (get_elem? b i) scores i
  unfolding by_subtask best_from
  get_elem?-by_subtask b [] i = refl
  get_elem?-by_subtask b (v ∷ scores) i =
      get_elem?-by_subtask (raise_scores num b v) scores i
      ∙ ap (λ o. best_from o scores i) (get_elem?-raise_scores b v i)

  -- A score is below another; a submission without that subtask says nothing.
  abbrev pub AtMost : F → Option F → Type 0
  AtMost b none = Unit
  AtMost b (some x) = num.max b x ≡ b

  -- One of the submissions has the score at the index.
  abbrev pub Attained : List (List F) → ℕ → F → Type 0
  Attained [] i b = ⊥
  Attained (v ∷ scores) i b = (get_elem? v i ≡ some b) ⊎ Attained scores i b

  -- `b` is the best score at index `i`: at least zero and at least the score there of each
  -- submission, and either zero or the score of one of them.
  pub record IsBest (scores : List (List F)) (i : ℕ) (b : F) : Type 0 where
    pub nonneg : num.max b num.zero ≡ b
    pub upper : All (λ v. AtMost b (get_elem? v i)) scores
    pub attained : (b ≡ num.zero) ⊎ Attained scores i b

module _ {F : Type 0} (num : Arith F) (law : IsMax num) where
  max_self : (a : F) → num.max a a ≡ a
  max_self a = elim (law.selective a a) [ inl e ↦ e | inr e ↦ e ]

  max_idem : (a x : F) → num.max (num.max a x) a ≡ num.max a x
  max_idem a x = elim (law.selective a x) [
    | inl e ↦ cc (e, max_self a)
    | inr e ↦ cc (e, law.comm x a)
  ]

  -- What is above a maximum is above both.
  above_left : (b a x : F) → num.max b (num.max a x) ≡ b → num.max b a ≡ b
  above_left b a x h = cc (h, law.assoc b (num.max a x) a, max_idem a x)

  above_right : (b a x : F) → num.max b (num.max a x) ≡ b → num.max b x ≡ b
  above_right b a x h = above_left b x a (rw (law.comm x a) h)

  either : (b a x : F) → b ≡ num.max a x → (b ≡ a) ⊎ (b ≡ x)
  either b a x h = elim (law.selective a x) [ inl e ↦ inl (h ∙ e) | inr e ↦ inr (h ∙ e) ]

  -- The best score from `a` on.
  record IsBestFrom (a : F) (scores : List (List F)) (i : ℕ) (b : F) : Type 0 where
    from : num.max b a ≡ b
    upper : All (λ v. AtMost num b (get_elem? v i)) scores
    attained : (b ≡ a) ⊎ Attained num scores i b

  step_best :
      (a : F) (v : List F) (scores : List (List F)) (i : ℕ) (b x : F)
      → get_elem? v i ≡ some x
      → IsBestFrom (num.max a x) scores i b
      → IsBestFrom a (v ∷ scores) i b
  step_best a v scores i b x e h = record {
    from = above_left b a x h.from;
    upper = (rw e (above_right b a x h.from), h.upper);
    attained = elim h.attained [
      | inl same ↦ elim (either b a x same) [
        | inl old ↦ inl old
        | inr new ↦ inr (inl (e ∙ ap some (sym new)))
      ]
      | inr later ↦ inr (inr later)
    ];
  }

  skip_best :
      (a : F) (v : List F) (scores : List (List F)) (i : ℕ) (b : F)
      → get_elem? v i ≡ none
      → IsBestFrom a scores i b
      → IsBestFrom a (v ∷ scores) i b
  skip_best a v scores i b e h = record {
    from = h.from;
    upper = (rw e tt, h.upper);
    attained = elim h.attained [ inl same ↦ inl same | inr later ↦ inr (inr later) ];
  }

  best_from-IsBestFrom :
      (a : F) (scores : List (List F)) (i : ℕ) (b : F)
      → best_from num (some a) scores i ≡ some b
      → IsBestFrom a scores i b
  unfolding best_from combine
  best_from-IsBestFrom a [] i b h =
      let e : a ≡ b = some-injective a b h in
      record { from = rw e (max_self b); upper = tt; attained = inl (sym e) }
  best_from-IsBestFrom a (v ∷ scores) i b h = elim (Option-cases (get_elem? v i)) [
    | inl e ↦ skip_best a v scores i b e (best_from-IsBestFrom a scores i b (rw e at h))
    | inr (x, e) ↦
        step_best a v scores i b x e (best_from-IsBestFrom (num.max a x) scores i b (rw e at h))
  ]

  best_from-none :
      (scores : List (List F)) (i : ℕ) (b : F)
      → best_from num none scores i ≡ some b
      → IsBestFrom num.zero scores i b
  unfolding best_from combine
  best_from-none [] i b h = absurd (ground arith)
  best_from-none (v ∷ scores) i b h = elim (Option-cases (get_elem? v i)) [
    | inl e ↦ skip_best num.zero v scores i b e (best_from-none scores i b (rw e at h))
    | inr (x, e) ↦
        step_best num.zero v scores i b x e
          (best_from-IsBestFrom (num.max num.zero x) scores i b (rw e at h))
  ]

  -- Each entry that the loops compute is the best score at its index.
  pub by_subtask-IsBest :
      (scores : List (List F)) (i : ℕ) (b : F)
      → get_elem? (by_subtask num [] scores) i ≡ some b
      → IsBest num scores i b
  by_subtask-IsBest scores i b h =
      let best = best_from-none scores i b (sym (get_elem?-by_subtask num [] scores i) ∙ h) in
      record { nonneg = best.from; upper = best.upper; attained = best.attained }

  best_from-some :
      (a : F) (scores : List (List F)) (i : ℕ)
      → (b : F) × (best_from num (some a) scores i ≡ some b)
  unfolding best_from combine
  best_from-some a [] i = (a, refl)
  best_from-some a (v ∷ scores) i = elim (Option-cases (get_elem? v i)) [
    | inl e ↦ rw e (best_from-some a scores i)
    | inr (x, e) ↦ rw e (best_from-some (num.max a x) scores i)
  ]

  best_from-Attained :
      (scores : List (List F)) (i : ℕ) (x : F)
      → Attained num scores i x
      → (b : F) × (best_from num none scores i ≡ some b)
  unfolding best_from combine
  best_from-Attained [] i x h = absurd h
  best_from-Attained (v ∷ scores) i x (inl e) = rw e (best_from-some (num.max num.zero x) scores i)
  best_from-Attained (v ∷ scores) i x (inr h) = elim (Option-cases (get_elem? v i)) [
    | inl e ↦ rw e (best_from-Attained scores i x h)
    | inr (y, e) ↦ rw e (best_from-some (num.max num.zero y) scores i)
  ]

  -- Where the maximum is commutative, associative and selective, and some submission has a score at
  -- an index, the loops compute an entry there: at least zero, at least the score there of each
  -- submission, and either zero or one of those scores.
  pub by_subtask-Attained :
      (scores : List (List F)) (i : ℕ) (x : F)
      → Attained num scores i x
      → (b : F) × (get_elem? (by_subtask num [] scores) i ≡ some b) × IsBest num scores i b
  by_subtask-Attained scores i x h =
      let (b, e) = best_from-Attained scores i x h in
      let found = get_elem?-by_subtask num [] scores i ∙ e in
      (b, found, by_subtask-IsBest scores i b found)
