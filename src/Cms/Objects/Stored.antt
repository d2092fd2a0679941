-- ===== src/Cms/Objects/Stored.antt =====
-- What `AddFsObject` and `MakeSubmission` of oiajudge/pkg/cmsbridge/submission.go leave in the
-- tables of the file store, whatever PostgreSQL fails at.
use oiaj.Base.{
  ℕ, ◌+◌, ◌≤◌, ◌≡◌, refl, sym, ap, ◌∙◌, ◌⊎◌, inl, inr, true, [], ◌∷◌, ◌++◌, arith, Bool-cases,
  Option-cases,
}
use oiaj.Text.Bytes.{Bytes}
use oiaj.Store.Errors.{Error, database, transaction_aborted, Outcome, ok, err, panic}
use oiaj.Store.Action.{◌>>◌, pure, recover, >>=-state}
use oiaj.Store.Session.{exec, statement, next_fault, pass, abort, code_of}
use oiaj.Cms.Tables.{CmsDb, CmsWorld, Schema}
use oiaj.Cms.Platform.{Platform}
use oiaj.Cms.Objects.{
  join_all, create_object, touch_object, deferring, write_object, name_object, insert_object,
  fill_object,
}
use oiaj.Cms.Objects.Pages.{
  written, IsSound, IsSound-later, IsSound-written, IsSound-named, content_at-new,
}

module _ {F : Type 0} where
  -- The number of objects and the database are the same.
  pub record IsSame (w w' : CmsWorld F) : Type 0 where
    pub db : w'.db ≡ w.db
    pub drawn : w'.sequences ≡ w.sequences

  touch_object-IsSame : (w : CmsWorld F) → IsSame w (touch_object w).1
  unfolding touch_object statement
  touch_object-IsSame w = record { db = ground arith; drawn = ground arith }

  pub create_object-cases :
      (w : CmsWorld F)
      → ((e : Error) × (w1 : CmsWorld F) × (create_object w ≡ (err e, w1)) × IsSame w w1)
        ⊎ ((w1 : CmsWorld F) × (create_object w ≡ (ok (w.sequences.large_objects + 1), w1))
            × (w1.db ≡ w.db)
            × (w1.sequences.large_objects ≡ w.sequences.large_objects + 1))
  unfolding create_object statement
  create_object-cases w = elim (Bool-cases w.aborted) [
    | inl dead ↦ inl (transaction_aborted, pass w, ground arith, record { db = refl; drawn = refl })
    | inr live ↦ elim (Option-cases (next_fault w)) [
      | inl answered ↦ inr ((create_object w).1, ground arith, ground arith, ground arith)
      | inr (f, fails) ↦
          inl
            (database (code_of f), abort (pass w), ground arith, record { db = refl; drawn = refl })
    ]
  ]

module _ {F : Type 0} (go : Platform F) where
  -- Either the pages are there, or the transaction is lost.
  write_object-cases :
      (n : ℕ) (content : Bytes) (w : CmsWorld F)
      → ((write_object go (n + 1) content w).1.sequences ≡ w.sequences)
        × ((((write_object go (n + 1) content w).1.db ≡ w.db)
              × ((write_object go (n + 1) content w).1.aborted ≡ true))
            ⊎ ((write_object go (n + 1) content w).1.db
                ≡ record w.db { pages = written n w.db.pages (go.pages_of content) }))
  unfolding write_object statement
  write_object-cases n content w = elim (Bool-cases w.aborted) [
    | inl dead ↦ (ground arith, inl (ground arith))
    | inr live ↦ elim (Option-cases (next_fault w)) [
      | inl answered ↦ (ground arith, inr (ground arith))
      | inr (f, fails) ↦ (ground arith, inl (ground arith))
    ]
  ]

-- An error that is dropped leaves the state as it is.
dropped : {W : Type 0} (x : Outcome Unit × W) → (recover (λ _. x) (λ e. pure tt) x.1).1 ≡ x.1
dropped (ok u, w) = refl
dropped (err e, w) = refl
dropped (panic m, w) = refl

module _ {F : Type 0} (schema : Schema F) (digest : Bytes) (oid : ℕ) where
  name_object-aborted :
      (w : CmsWorld F) → w.aborted ≡ true → IsSame w (name_object schema digest oid w).1
  unfolding name_object exec statement
  name_object-aborted w dead = record { db = ground arith; drawn = ground arith }

  name_object-cases :
      (w : CmsWorld F)
      → ((name_object schema digest oid w).1.sequences ≡ w.sequences)
        × (((name_object schema digest oid w).1.db ≡ w.db)
            ⊎ ((name_object schema digest oid w).1.db ≡ record w.db {
              objects = w.db.objects ++ record { digest = digest; loid = oid } ∷ [];
            }))
  unfolding name_object insert_object exec statement
  name_object-cases w = ground arith

module _ {F : Type 0} (go : Platform F) (n0 : ℕ) where
  -- The file store is sound, and no number of an object has been given back.
  pub record IsStored (w : CmsWorld F) : Type 0 where
    pub drawn : n0 ≤ w.sequences.large_objects
    pub sound : IsSound go w.sequences.large_objects w.db

  pub from_parts :
      (n : ℕ) (d : CmsDb F) (w : CmsWorld F)
      → n0 ≤ n
      → IsSound go n d
      → w.sequences.large_objects ≡ n
      → w.db ≡ d
      → IsStored w
  from_parts n d w h sound numbered same = record {
    drawn = omega (arith, h, numbered);
    sound = rw (numbered, same) sound;
  }

  pub unmoved : (w w' : CmsWorld F) → IsSame w w' → IsStored w → IsStored w'
  unmoved w w' same h =
      from_parts w.sequences.large_objects w.db w' h.drawn h.sound
        (ap (λ s. s.large_objects) same.drawn) same.db

module _ {F : Type 0} (go : Platform F) (schema : Schema F)
    (law : (c : Bytes) → join_all (λ p. p) (go.pages_of c) ≡ c) (n0 : ℕ) where
  module _ (n : ℕ) (h : n0 ≤ n) (content : Bytes) (w : CmsWorld F) (sound : IsSound go n w.db)
      (numbered : w.sequences.large_objects ≡ n + 1) where
    abbrev after_write : CmsWorld F
    after_write = (write_object go (n + 1) content w).1

    written_state : IsStored go n0 (recover (write_object go (n + 1) content) (λ e. pure tt) w).1
    written_state =
        let (drawn, cases) = write_object-cases go n content w in
        let reached = dropped (write_object go (n + 1) content w) in
        let numbers =
          ap (λ x. x.sequences.large_objects) reached
          ∙ ap (λ x. x.large_objects) drawn
          ∙ numbered in
        elim cases [
          | inl (same, lost) ↦
              from_parts go n0 (n + 1) w.db _ (omega (arith, h))
                (IsSound-later go n (n + 1) w.db (omega arith) sound) numbers
                (ap (λ x. x.db) reached ∙ same)
          | inr filled ↦
              from_parts go n0 (n + 1) _ _ (omega (arith, h))
                (IsSound-written go n w.db (go.pages_of content) sound) numbers
                (ap (λ x. x.db) reached ∙ filled)
        ]

    named :
        (w2 : CmsWorld F)
        → after_write ≡ w2
        → IsStored go n0 (name_object schema (go.digest content) (n + 1) w2).1
    named w2 reached =
        let (drawn, cases) = write_object-cases go n content w in
        let numbers =
          ap (λ x. x.sequences.large_objects) (sym reached)
          ∙ ap (λ x. x.large_objects) drawn
          ∙ numbered in
        elim cases [
          | inl (same, lost) ↦
              let kept =
                name_object-aborted schema (go.digest content) (n + 1) w2
                  (ap (λ x. x.aborted) (sym reached) ∙ lost) in
              from_parts go n0 (n + 1) w.db _ (omega (arith, h))
                (IsSound-later go n (n + 1) w.db (omega arith) sound)
                (ap (λ x. x.large_objects) kept.drawn ∙ numbers)
                (kept.db ∙ ap (λ x. x.db) (sym reached) ∙ same)
          | inr filled ↦
              let d1 : CmsDb F = record w.db {
                pages = written n w.db.pages (go.pages_of content);
              } in
              let sound1 = IsSound-written go n w.db (go.pages_of content) sound in
              let there = ap (λ x. x.db) (sym reached) ∙ filled in
              let (drawn2, cases2) = name_object-cases schema (go.digest content) (n + 1) w2 in
              let numbers2 = ap (λ x. x.large_objects) drawn2 ∙ numbers in
              elim cases2 [
                | inl same ↦
                    from_parts go n0 (n + 1) d1 _ (omega (arith, h)) sound1 numbers2 (same ∙ there)
                | inr added ↦
                    from_parts go n0 (n + 1) _ _ (omega (arith, h))
                      (IsSound-named go (n + 1) (n + 1) (go.digest content) d1 (omega arith)
                        (ap go.digest (
                          content_at-new n w.db.pages (go.pages_of content) sound.below
                          ∙ law content))
                        sound1)
                      numbers2
                      (added
                        ∙ ap
                            (λ (d : CmsDb F). record d {
                              objects =
                                  d.objects
                                  ++ record { digest = go.digest content; loid = n + 1 } ∷ [];
                            })
                            there)
              ]
        ]

  -- After `lo_create` has drawn the number.
  pub fill_object-IsStored :
      (n : ℕ) (content : Bytes) (w : CmsWorld F)
      → n0 ≤ n
      → IsSound go n w.db
      → w.sequences.large_objects ≡ n + 1
      → IsStored go n0 (fill_object go schema (go.digest content) content (n + 1) w).1
  unfolding fill_object deferring
  fill_object-IsStored n content w h sound numbered =
      let opened = touch_object-IsSame w in
      let w1 = (touch_object w).1 in
      let sound1 : IsSound go n w1.db = rw opened.db sound in
      let numbered1 = ap (λ s. s.large_objects) opened.drawn ∙ numbered in
      let begun =
        from_parts go n0 (n + 1) w.db w1 (omega (arith, h))
          (IsSound-later go n (n + 1) w.db (omega arith) sound) numbered1 opened.db in
      let write = recover (write_object go (n + 1) content) (λ e. pure tt) in
      let reached = sym (dropped (write_object go (n + 1) content w1)) in
      let both =
        >>=-state (IsStored go n0) write (λ _. name_object schema (go.digest content) (n + 1)) w1
          (written_state n h content w1 sound1 numbered1)
          λ u. named n h content w1 sound1 numbered1 (write w1).1 reached in
      >>=-state (IsStored go n0) touch_object
        (λ _. deferring touch_object (write >> name_object schema (go.digest content) (n + 1))) w
        begun λ u. unmoved go n0 _ _ (touch_object-IsSame _) both
