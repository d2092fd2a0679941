-- ===== src/Store/Errors.antt =====
-- Go's error values as the program builds them, and `IsNoRows` of oiajudge/pkg/store/store.go.
use oiaj.Base.{ℕ, String, Bool, true, false, ◌≡◌, refl, ◌⊎◌, inl, inr}
use oiaj.Base.Int.{ℤ}

-- The text of an error or of a response, with its formatted arguments kept as data.
pub data Message : Type 0 where
  text : String → Message
  wait_before_retry : ℤ → Message

pub data Error : Type 0 where
  -- `pgx.ErrNoRows`
  no_rows : Error
  -- a connection or server failure that PostgreSQL reports under a code
  database : ℕ → Error
  -- constraint violations of the schema, and an exhausted sequence
  unique_violation foreign_key_violation sequence_exhausted cardinality_violation : Error
  -- a table that does not exist
  undefined_table : Error
  -- a statement in a transaction that has failed, and a commit of such a transaction
  transaction_aborted commit_rolled_back : Error
  -- `*store.CustomError` with its query
  custom : String → Error → Error
  -- `fmt.Errorf("Query(): …")` and `fmt.Errorf("Exec(): …")`, which keep the text only
  query_failed exec_failed : String → Error → Error
  -- failures of packages: `crypto/rand`, `encoding/json`, `bcrypt`
  random_failed json_unsupported_value json_year json_syntax float_syntax password_too_long
        password_mismatch :
      Error
  -- `errors.New` and `fmt.Errorf` with no error inside
  plain : Message → Error
  -- an error of the contest system
  contest : ℕ → Error
  -- `*OiaError` without and with an internal error
  oia : ℕ → Message → Error
  oia_caused : ℕ → Message → Error → Error

-- What a Go function returns: a value, an error, or it panics.
pub data Outcome (A : Type 0) : Type 0 where
  ok : A → Outcome A
  err : Error → Outcome A
  panic : String → Outcome A

unfoldable pub is_no_rows : Error → Bool
is_no_rows (custom query inner) = is_no_rows inner
is_no_rows no_rows = true
is_no_rows _ = false

pub Outcome-cases :
    {A : Type 0} (r : Outcome A)
    → ((a : A) × (r ≡ ok a)) ⊎ (((e : Error) × (r ≡ err e)) ⊎ ((m : String) × (r ≡ panic m)))
Outcome-cases (ok a) = inl (a, refl)
Outcome-cases (err e) = inr (inl (e, refl))
Outcome-cases (panic m) = inr (inr (m, refl))
