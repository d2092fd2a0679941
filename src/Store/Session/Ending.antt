-- ===== src/Store/Session/Ending.antt =====
-- How `Close` of oiajudge/pkg/store/store.go ends a transaction that `DBClient.Tx` began.
use oiaj.Base.{String, ◌≡◌, ◌⊎◌, inl, inr, true, false, none, some, arith, Bool-cases, Option-cases}
use oiaj.Store.Errors.{Error, database, commit_rolled_back, Outcome, ok, err, panic, Outcome-cases}
use oiaj.Store.Session.{
  Fault, refused, cut, World, Tx, code_of, next_fault, pass, commit, rollback, release, with_tx,
  with_local_tx,
}
use oiaj.Store.Session.Atomic.{
  started, Committed, with_tx-all_or_nothing, with_local_tx-all_or_nothing,
}

-- A COMMIT of this transaction returns an error: a statement has failed, or the round trip fails.
abbrev pub IsDoomed : {D S : Type 0} → World D S → Type 0
IsDoomed w = (w.aborted ≡ true) ⊎ ((f : Fault) × (next_fault w ≡ some f))

IsDoomed-cases :
    {D S : Type 0} (w : World D S) → ((w.aborted ≡ false) × (next_fault w ≡ none)) ⊎ IsDoomed w
IsDoomed-cases w = elim (Bool-cases w.aborted) [
  | inl failed ↦ inr (inl failed)
  | inr live ↦ elim (Option-cases (next_fault w)) [
    | inl answered ↦ inl (live, answered)
    | inr fault ↦ inr (inr fault)
  ]
]

module _ {D S A : Type 0} (body : Tx D S A) (w : World D S) where
  abbrev after_body : Outcome A × World D S
  after_body = body (started w)

  -- The ends that a transaction may have, with what the function returns and the database
  -- afterwards. `Told` says what it returns of the body's value where the COMMIT returns an error.
  pub data IsEnding (Told : A → Outcome A → Type 0) (r : Outcome A) (w' : World D S) : Type 0 where
    no_connection :
        (f : Fault)
        → next_fault w ≡ some f
        → r ≡ panic "nil pointer dereference"
        → w'.db ≡ w.db
        → IsEnding Told r w'
    not_begun :
        (f : Fault)
        → next_fault (pass w) ≡ some f
        → r ≡ err (database (code_of f))
        → w'.db ≡ w.db
        → IsEnding Told r w'
    rolled_back : (e : Error) → after_body.0 ≡ err e → r ≡ err e → w'.db ≡ w.db → IsEnding Told r w'
    committed : (a : A) → after_body.0 ≡ ok a → r ≡ ok a → Committed body w w' → IsEnding Told r w'
    not_committed :
        (a : A)
        → after_body.0 ≡ ok a
        → Told a r
        → IsDoomed after_body.1
        → (w'.db ≡ w.db) ⊎ Committed body w w'
        → IsEnding Told r w'
    panicked :
        (m : String)
        → after_body.0 ≡ panic m
        → r ≡ panic m
        → Committed body w w' ⊎ (IsDoomed after_body.1 × (w'.db ≡ w.db))
        → IsEnding Told r w'

  commit_fails :
      (a : A)
      → next_fault w ≡ none
      → next_fault (pass w) ≡ none
      → after_body.0 ≡ ok a
      → IsDoomed after_body.1
      → (e : Error) × ((with_tx body w).0 ≡ err e)
  unfolding with_tx commit release
  commit_fails a acquired begun returned doomed = elim (Option-cases (next_fault after_body.1)) [
    | inl answered ↦ elim doomed [
      | inl failed ↦ (commit_rolled_back, ground arith)
      | inr (f, lost) ↦ absurd (ground arith)
    ]
    | inr (refused e, lost) ↦ (database e, ground arith)
    | inr (cut n e, lost) ↦ (database e, ground arith)
  ]

  -- A function with a named error: where the transaction does not begin, or the body returns an
  -- error, the database is as before and the function fails; where the body returns a value and the
  -- COMMIT goes through, the function returns the value and the database is the one that the body
  -- left; where the COMMIT returns an error, the function returns an error, and the database is the
  -- one before or the one that the body left; and a body that panics is committed if it can be.
  pub with_tx-IsEnding :
      IsEnding (λ a r. (e : Error) × (r ≡ err e)) (with_tx body w).0 (with_tx body w).1
  unfolding with_tx commit rollback release
  with_tx-IsEnding = elim (Option-cases (next_fault w)) [
    | inr (f, lost) ↦ no_connection f lost (ground arith) (ground arith)
    | inl acquired ↦ elim (Option-cases (next_fault (pass w))) [
      | inr (f, failed) ↦ not_begun f failed (ground arith) (ground arith)
      | inl begun ↦ elim (Outcome-cases after_body.0) [
        | inr (inl (e, failed)) ↦ rolled_back e failed (ground arith) (ground arith)
        | inl (a, returned) ↦ elim (IsDoomed-cases after_body.1) [
          | inl (live, answered) ↦ committed a returned (ground arith) (ground arith)
          | inr doomed ↦
              not_committed a returned (commit_fails a acquired begun returned doomed) doomed
                (with_tx-all_or_nothing body w)
        ]
        | inr (inr (m, lost)) ↦ panicked m lost (ground arith) (elim (IsDoomed-cases after_body.1) [
          | inl (live, answered) ↦ inl (ground arith)
          | inr doomed ↦ elim (with_tx-all_or_nothing body w) [
            | inl kept ↦ inr (doomed, kept)
            | inr stored ↦ inl stored
          ]
        ])
      ]
    ]
  ]

  -- A function with a local error: where the transaction does not begin, or the body returns an
  -- error, the database is as before and the function fails; where the body returns a value and the
  -- COMMIT goes through, the function returns the value and the database is the one that the body
  -- left; where the COMMIT returns an error, the function returns the value all the same, and the
  -- database is the one before or the one that the body left; and a body that panics is committed if
  -- it can be.
  pub with_local_tx-IsEnding :
      IsEnding (λ a r. r ≡ ok a) (with_local_tx body w).0 (with_local_tx body w).1
  unfolding with_local_tx commit rollback release
  with_local_tx-IsEnding = elim (Option-cases (next_fault w)) [
    | inr (f, lost) ↦ no_connection f lost (ground arith) (ground arith)
    | inl acquired ↦ elim (Option-cases (next_fault (pass w))) [
      | inr (f, failed) ↦ not_begun f failed (ground arith) (ground arith)
      | inl begun ↦ elim (Outcome-cases after_body.0) [
        | inr (inl (e, failed)) ↦ rolled_back e failed (ground arith) (ground arith)
        | inl (a, returned) ↦ elim (IsDoomed-cases after_body.1) [
          | inl (live, answered) ↦ committed a returned (ground arith) (ground arith)
          | inr doomed ↦
              not_committed a returned (ground arith) doomed (with_local_tx-all_or_nothing body w)
        ]
        | inr (inr (m, lost)) ↦ panicked m lost (ground arith) (elim (IsDoomed-cases after_body.1) [
          | inl (live, answered) ↦ inl (ground arith)
          | inr doomed ↦ elim (with_local_tx-all_or_nothing body w) [
            | inl kept ↦ inr (doomed, kept)
            | inr stored ↦ inl stored
          ]
        ])
      ]
    ]
  ]
