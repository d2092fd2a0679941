-- ===== src/Cms/Objects/Pages.antt =====
-- The pages of large objects: what `fs.Write` of oiajudge/pkg/cmsbridge/submission.go adds to
-- `pg_largeobject`, and what a SELECT in the order of the pages reads.
use oiaj.Base.{
  ℕ, suc, ◌+◌, ◌≤◌, ◌<◌, ◌≡◌, refl, ap, ◌∙◌, Bool, List, [], ◌∷◌, ◌++◌, ◌==◌, select, All, All-mono,
  All-append, arith,
}
use oiaj.Text.Bytes.{Bytes}
use oiaj.Cms.Tables.{FsObject, Page, CmsDb}
use oiaj.Cms.Platform.{Platform}
use oiaj.Cms.Objects.{join_all, by_pageno, pages_from, contents}

-- The content of a large object.
abbrev pub content_at : ℕ → List Page → Bytes
content_at oid pages = contents (by_pageno (select (λ p. p.loid == oid) pages))

-- No page and no object has a number beyond the last one that was drawn.
abbrev pub IsBelow : ℕ → List Page → Type 0
IsBelow n pages = All (λ p. p.loid ≤ n) pages

-- An object stands under the digest of its content.
abbrev pub IsHonest : {F : Type 0} → Platform F → ℕ → List Page → List FsObject → Type 0
IsHonest go n pages objects =
    All (λ o. (o.loid ≤ n) × (go.digest (content_at o.loid pages) ≡ o.digest)) objects

-- What the tables of the file store keep.
pub record IsSound {F : Type 0} (go : Platform F) (n : ℕ) (d : CmsDb F) : Type 0 where
  pub below : IsBelow n d.pages
  pub honest : IsHonest go n d.pages d.objects

select-append :
    {A : Type 0} (p : A → Bool) (xs ys : List A) → select p (xs ++ ys) ≡ select p xs ++ select p ys
select-append p [] ys = refl
select-append p (x ∷ xs) ys = ground (arith, select-append p xs ys)

pub append_nil : {A : Type 0} (xs : List A) → xs ++ [] ≡ xs
append_nil [] = refl
append_nil (x ∷ xs) = ap (λ ys. x ∷ ys) (append_nil xs)

select_other :
    (oid n : ℕ) (pages : List Page)
    → IsBelow n pages
    → n < oid
    → select (λ p. p.loid == oid) pages ≡ []
select_other oid n [] h k = refl
select_other oid n (p ∷ pages) h k = ground (arith, select_other oid n pages h.1 k, h.0)

select_own :
    (oid k : ℕ) (cs : List Bytes)
    → select (λ p. p.loid == oid) (pages_from oid k cs) ≡ pages_from oid k cs
unfolding pages_from
select_own oid k [] = refl
select_own oid k (c ∷ cs) = ground (arith, select_own oid (suc k) cs)

select_new_pages :
    (oid new k : ℕ) (cs : List Bytes)
    → oid < new
    → select (λ p. p.loid == oid) (pages_from new k cs) ≡ []
unfolding pages_from
select_new_pages oid new k [] h = refl
select_new_pages oid new k (c ∷ cs) h = ground (arith, select_new_pages oid new (suc k) cs h)

-- New pages are in order already.
by_pageno-pages_from :
    (oid k : ℕ) (cs : List Bytes) → by_pageno (pages_from oid k cs) ≡ pages_from oid k cs
unfolding by_pageno pages_from
by_pageno-pages_from oid k [] = refl
by_pageno-pages_from oid k (c ∷ []) = refl
by_pageno-pages_from oid k (c ∷ e ∷ cs) = ground (arith, by_pageno-pages_from oid (suc k) (e ∷ cs))

contents-pages_from :
    (oid k : ℕ) (cs : List Bytes) → contents (pages_from oid k cs) ≡ join_all (λ c. c) cs
unfolding contents pages_from
contents-pages_from oid k [] = refl
contents-pages_from oid k (c ∷ cs) = ap (λ rest. c ++ rest) (contents-pages_from oid (suc k) cs)

pages_from-IsBelow : (oid k : ℕ) (cs : List Bytes) → IsBelow oid (pages_from oid k cs)
unfolding pages_from
pages_from-IsBelow oid k [] = tt
pages_from-IsBelow oid k (c ∷ cs) = (omega arith, pages_from-IsBelow oid (suc k) cs)

module _ (n : ℕ) (pages : List Page) (cs : List Bytes) where
  -- The pages once a content has been written under a new number.
  abbrev pub written : List Page
  written = pages ++ pages_from (n + 1) 0 cs

  pub content_at-new : IsBelow n pages → content_at (n + 1) written ≡ join_all (λ c. c) cs
  content_at-new below =
      let own : select (λ p. p.loid == n + 1) written ≡ pages_from (n + 1) 0 cs =
        select-append (λ p. p.loid == n + 1) pages (pages_from (n + 1) 0 cs)
        ∙ ap (λ ps. ps ++ select (λ p. p.loid == n + 1) (pages_from (n + 1) 0 cs))
            (select_other (n + 1) n pages below (omega arith))
        ∙ select_own (n + 1) 0 cs in
      ap (λ ps. contents (by_pageno ps)) own
      ∙ ap contents (by_pageno-pages_from (n + 1) 0 cs)
      ∙ contents-pages_from (n + 1) 0 cs

  content_at-old : (oid : ℕ) → oid ≤ n → content_at oid written ≡ content_at oid pages
  content_at-old oid h =
      let same : select (λ p. p.loid == oid) written ≡ select (λ p. p.loid == oid) pages =
        select-append (λ p. p.loid == oid) pages (pages_from (n + 1) 0 cs)
        ∙ ap (λ ps. select (λ p. p.loid == oid) pages ++ ps)
            (select_new_pages oid (n + 1) 0 cs (omega (arith, h)))
        ∙ append_nil (select (λ p. p.loid == oid) pages) in
      ap (λ ps. contents (by_pageno ps)) same

module _ {F : Type 0} (go : Platform F) where
  -- A number that is drawn and not used does no harm.
  pub IsSound-later : (n m : ℕ) (d : CmsDb F) → n ≤ m → IsSound go n d → IsSound go m d
  IsSound-later n m d h sound = record {
    below = All-mono _ _ d.pages (λ p k. omega (arith, h, k)) sound.below;
    honest = All-mono _ _ d.objects (λ o k. (omega (arith, h, k.0), k.1)) sound.honest;
  }

  pub IsSound-written :
      (n : ℕ) (d : CmsDb F) (cs : List Bytes)
      → IsSound go n d
      → IsSound go (n + 1) (record d { pages = written n d.pages cs })
  IsSound-written n d cs sound =
      let later = IsSound-later n (n + 1) d (omega arith) sound in
      record {
        below =
            All-append (λ p. p.loid ≤ n + 1) d.pages (pages_from (n + 1) 0 cs) later.below
              (pages_from-IsBelow (n + 1) 0 cs);
        honest =
            All-mono _ _ d.objects
              (λ o k.
                (omega (arith, k.0), ap go.digest (content_at-old n d.pages cs o.loid k.0) ∙ k.1))
              sound.honest;
      }

  pub IsSound-named :
      (n oid : ℕ) (digest : Bytes) (d : CmsDb F)
      → oid ≤ n
      → go.digest (content_at oid d.pages) ≡ digest
      → IsSound go n d
      → IsSound go n
          (record d { objects = d.objects ++ record { digest = digest; loid = oid } ∷ [] })
  IsSound-named n oid digest d h same sound = record {
    below = sound.below;
    honest = All-append _ d.objects _ sound.honest ((h, same), tt);
  }
