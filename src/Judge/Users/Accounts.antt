-- ===== src/Judge/Users/Accounts.antt =====
-- The accounts: what the statements of oiajudge/pkg/oiajudge/store.go on `oia_user` and
-- `oia_tokens` do to the scores.
use oiaj.Base.{
  ℕ, ◌≡◌, refl, sym, ◌∙◌, inl, inr, Bool, true, false, List, [], ◌∷◌, ◌++◌, arith, All, All-mono,
  All-append, any, update, Bool-cases,
}
use oiaj.Base.Int.{ℤ, eq_ℤ, eq_ℤ_iff}
use oiaj.Text.Bytes.{Bytes}
use oiaj.Bridge.{ObjectId, Arith}
use oiaj.Store.Action.{pure}
use oiaj.Store.Session.Keeping.{
  IsKeeping, >>=-IsKeeping, exec-IsKeeping, query_row-IsKeeping, read_random-IsKeeping,
}
use oiaj.Judge.Tables.{UserRow, TaskScoreRow, Db, JudgeTx}
use oiaj.Judge.Users.{
  is_user, clashes, insert_user, create_user, insert_token, draw_token, store_secret,
  create_user_token, print_token, set_user_submission,
}
use oiaj.Judge.Users.Clock.{unix_milli}
use oiaj.Judge.Updater.Balance.{IsBalanced, total_of}

module _ {F : Type 0} where
  -- Every score is that of a user.
  abbrev pub IsOwned : List (UserRow F) → List (TaskScoreRow F) → Type 0
  IsOwned users rows = All (λ r. any (is_user r.user_id) users ≡ true) rows

  -- The scores add up, and belong to users.
  pub record IsSettled (num : Arith F) (d : Db F) : Type 0 where
    pub balanced : IsBalanced num d
    pub owned : IsOwned d.users d.task_scores

  any-more :
      (p : UserRow F → Bool) (users : List (UserRow F)) (new : UserRow F)
      → any p users ≡ true
      → any p (users ++ new ∷ []) ≡ true
  any-more p [] new h = absurd (ground arith)
  any-more p (u ∷ users) new h = ground (arith, any-more p users new)

  unclashed :
      (new : UserRow F) (users : List (UserRow F))
      → any (clashes new) users ≡ false
      → any (is_user new.id) users ≡ false
  unfolding clashes
  unclashed new [] h = refl
  unclashed new (u ∷ users) h = ground (arith, unclashed new users)

  -- Who is not there has no scores.
  total_of-stranger :
      (num : Arith F) (uid : ObjectId) (users : List (UserRow F)) (rows : List (TaskScoreRow F))
      → any (is_user uid) users ≡ false
      → IsOwned users rows
      → total_of num uid rows ≡ num.zero
  unfolding total_of
  total_of-stranger num uid users [] h k = refl
  total_of-stranger num uid users (r ∷ rows) h k = elim (Bool-cases (eq_ℤ r.user_id uid)) [
    | inl mine ↦ let same = (eq_ℤ_iff r.user_id uid).0 mine in absurd (ground (arith, same, k.0, h))
    | inr other ↦ rw other (total_of-stranger num uid users rows h k.1)
  ]

  -- The tables that say how the scores add up are the same.
  pub same-IsSettled :
      (num : Arith F) (d d' : Db F)
      → d'.users ≡ d.users
      → d'.task_scores ≡ d.task_scores
      → IsSettled num d
      → IsSettled num d'
  same-IsSettled num d d' users scores h = record {
    balanced = record {
      sums = rw (users, scores) h.balanced.sums;
      keyed = rw scores h.balanced.keyed;
    };
    owned = rw (users, scores) h.owned;
  }

  -- A new account starts at zero.
  opened-IsSettled :
      (num : Arith F) (new : UserRow F) (d : Db F)
      → new.score ≡ num.zero
      → any (clashes new) d.users ≡ false
      → IsSettled num d
      → IsSettled num (record d { users = d.users ++ new ∷ [] })
  opened-IsSettled num new d empty free h =
      let absent = unclashed new d.users free in
      record {
        balanced = record {
          sums =
              All-append (λ u. u.score ≡ total_of num u.id d.task_scores) d.users (new ∷ [])
                h.balanced.sums
                (
                  empty ∙ sym (total_of-stranger num new.id d.users d.task_scores absent h.owned),
                  tt,
                );
          keyed = h.balanced.keyed;
        };
        owned =
            All-mono _ _ d.task_scores (λ r k. any-more (is_user r.user_id) d.users new k) h.owned;
      }

  insert_user-IsSettled :
      (num : Arith F) (new : UserRow F) (d : Db F) (s : ℕ)
      → new.score ≡ num.zero
      → IsSettled num d
      → IsSettled num (insert_user new d s).1
  unfolding insert_user
  insert_user-IsSettled num new d s empty h = elim (Bool-cases (any (clashes new) d.users)) [
    | inl taken ↦ rw taken h
    | inr free ↦ rw free (opened-IsSettled num new d empty free h)
  ]

  -- A new instant of the last submission.
  stamp : ℤ → UserRow F → UserRow F
  stamp ms u = record u { last_submission_ms = ms }

  stamp-sums :
      (num : Arith F) (uid : ObjectId) (ms : ℤ) (rows : List (TaskScoreRow F))
      (users : List (UserRow F))
      → All (λ u. u.score ≡ total_of num u.id rows) users
      → All (λ u. u.score ≡ total_of num u.id rows) (update (is_user uid) (stamp ms) users)
  unfolding stamp
  stamp-sums num uid ms rows [] h = tt
  stamp-sums num uid ms rows (u ∷ users) h = elim (Bool-cases (is_user uid u)) [
    | inl hit ↦ rw hit (h.0, stamp-sums num uid ms rows users h.1)
    | inr miss ↦ rw miss (h.0, stamp-sums num uid ms rows users h.1)
  ]

  any-update_user :
      (uid v : ObjectId) (f : UserRow F → UserRow F) (users : List (UserRow F))
      → ((u : UserRow F) → (f u).id ≡ u.id)
      → any (is_user v) (update (is_user uid) f users) ≡ any (is_user v) users
  any-update_user uid v f [] same = refl
  any-update_user uid v f (u ∷ users) same = elim (Bool-cases (is_user uid u)) [
    | inl hit ↦ rw (hit, same u, any-update_user uid v f users same)
    | inr miss ↦ rw (miss, any-update_user uid v f users same)
  ]

  pub update_users-IsOwned :
      (uid : ObjectId) (f : UserRow F → UserRow F) (users : List (UserRow F))
      (rows : List (TaskScoreRow F))
      → ((u : UserRow F) → (f u).id ≡ u.id)
      → IsOwned users rows
      → IsOwned (update (is_user uid) f users) rows
  update_users-IsOwned uid f users rows same h =
      All-mono _ _ rows (λ r k. any-update_user uid r.user_id f users same ∙ k) h

module _ {F : Type 0} (num : Arith F) where
  abbrev Settles : {A : Type 0} → JudgeTx F A → Type 0
  Settles m = IsKeeping (IsSettled num) m

  pub create_user-IsSettled :
      (email username : Bytes) (id : ObjectId) (hash : Bytes)
      → Settles (create_user num email username id hash)
  unfolding create_user
  create_user-IsSettled email username id hash =
      >>=-IsKeeping (IsSettled num) _ (λ _. pure id)
        (exec-IsKeeping (IsSettled num) _ (insert_user _)
          λ d s h. insert_user-IsSettled num _ d s refl h)
        λ u w h. h

  pub set_user_submission-IsSettled : (uid : ObjectId) (t : ℤ) → Settles (set_user_submission uid t)
  unfolding set_user_submission stamp
  set_user_submission-IsSettled uid t = exec-IsKeeping (IsSettled num) _ _ λ d s h. record {
    balanced = record {
      sums = stamp-sums num uid (unix_milli t) d.task_scores d.users h.balanced.sums;
      keyed = h.balanced.keyed;
    };
    owned =
        update_users-IsOwned uid (stamp (unix_milli t)) d.users d.task_scores (λ u. refl) h.owned;
  }

  insert_token-IsSettled :
      (uid : ObjectId) (secret : Bytes) (d : Db F) (s : ℕ)
      → IsSettled num d
      → IsSettled num (insert_token uid secret d s).1
  unfolding insert_token
  insert_token-IsSettled uid secret d s h =
      same-IsSettled num d (insert_token uid secret d s).1 (ground arith) (ground arith) h

  pub create_user_token-IsSettled : (uid : ObjectId) → Settles (create_user_token uid)
  unfolding create_user_token store_secret draw_token
  create_user_token-IsSettled uid =
      >>=-IsKeeping (IsSettled num) _ (store_secret uid) (read_random-IsKeeping (IsSettled num))
        λ secret.
          >>=-IsKeeping (IsSettled num) (draw_token uid secret) (λ id. pure (print_token id secret))
            (query_row-IsKeeping (IsSettled num) _ (insert_token uid secret)
              λ d s h. insert_token-IsSettled uid secret d s h)
            λ id w h. h
