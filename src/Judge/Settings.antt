-- ===== src/Judge/Settings.antt =====
-- What the judge reads of its environment: `GetenvIntWithDefault` and the start of `RunServer` of
-- oiajudge/pkg/oiajudge/sever.go.
use oiaj.Base.{
  ℕ, suc, ◌-◌, ◌*◌, ◌%◌, ◌^◌, ◌≤◌, ◌<◌, ◌≡◌, refl, ap, sym, ◌∙◌, ◌⊎◌, inl, inr, Option, none, some,
  ltb, if◌then◌else◌, arith, Option-cases,
}
use oiaj.Base.Int.{ℤ, pos, negsuc}
use oiaj.Text.Bytes.{Bytes, codes}
use oiaj.Text.Decimal.{parse_int}

-- An int64 that has overflowed.
unfoldable pub wrap_int64 : ℤ → ℤ
wrap_int64 (pos n) = let m = n % 2 ^ 64 in if ltb m (2 ^ 63) then pos m else negsuc (2 ^ 64 - suc m)
wrap_int64 (negsuc n) =
    let m = n % 2 ^ 64 in if ltb m (2 ^ 63) then negsuc m else pos (2 ^ 64 - suc m)

-- `time.Millisecond * time.Duration(ms)`
unfoldable pub from_milliseconds : ℤ → ℤ
unfolding wrap_int64
from_milliseconds (pos ms) = wrap_int64 (pos (ms * 1000000))
from_milliseconds (negsuc ms) = wrap_int64 (negsuc (suc ms * 1000000 - 1))

value_or : ℤ → Option ℤ → ℤ
value_or fallback none = fallback
value_or fallback (some n) = n

-- `getenv` is `os.Getenv`, which answers a missing name with an empty text.
module _ (getenv : Bytes → Bytes) where
  -- `GetenvIntWithDefault`
  unfoldable pub getenv_int_with_default : Bytes → ℤ → ℤ
  unfolding value_or
  getenv_int_with_default env fallback = value_or fallback (parse_int (getenv env))

  unfoldable pub cooldown_setting : ℤ
  unfolding getenv_int_with_default from_milliseconds
  cooldown_setting =
      from_milliseconds (getenv_int_with_default (codes "OIAJ_SUBMISSION_COOLDOWN_MS") (pos 60000))

  -- The cooldown is what the environment says, or a minute where it says no number.
  pub cooldown_said :
      (ms : ℤ) × ((parse_int (getenv (codes "OIAJ_SUBMISSION_COOLDOWN_MS")) ≡ some ms)
        ⊎ ((parse_int (getenv (codes "OIAJ_SUBMISSION_COOLDOWN_MS")) ≡ none) × (ms ≡ pos 60000)))
      × (cooldown_setting ≡ from_milliseconds ms)
  unfolding cooldown_setting getenv_int_with_default value_or
  cooldown_said = elim (Option-cases (parse_int (getenv (codes "OIAJ_SUBMISSION_COOLDOWN_MS")))) [
    | inl silent ↦
        (pos 60000, inr (silent, refl), ap (λ o. from_milliseconds (value_or (pos 60000) o)) silent)
    | inr (ms, said) ↦ (ms, inl said, ap (λ o. from_milliseconds (value_or (pos 60000) o)) said)
  ]

  setting_said :
      (ms : ℕ)
      → (parse_int (getenv (codes "OIAJ_SUBMISSION_COOLDOWN_MS")) ≡ some (pos ms))
        ⊎ ((parse_int (getenv (codes "OIAJ_SUBMISSION_COOLDOWN_MS")) ≡ none) × (ms ≡ 60000))
      → getenv_int_with_default (codes "OIAJ_SUBMISSION_COOLDOWN_MS") (pos 60000) ≡ pos ms
  unfolding getenv_int_with_default value_or
  setting_said ms (inl said) = ap (value_or (pos 60000)) said
  setting_said ms (inr (silent, default)) =
      ap (value_or (pos 60000)) silent ∙ ap (λ n. pos n) (sym default)

  -- Where the environment says a number of milliseconds from 0 to 9223372036854, the cooldown is as
  -- many millions of nanoseconds; where it says no number, it is as for 60000.
  pub cooldown_setting-exact :
      (ms : ℕ)
      → (parse_int (getenv (codes "OIAJ_SUBMISSION_COOLDOWN_MS")) ≡ some (pos ms))
        ⊎ ((parse_int (getenv (codes "OIAJ_SUBMISSION_COOLDOWN_MS")) ≡ none) × (ms ≡ 60000))
      → ms ≤ 9223372036854
      → cooldown_setting ≡ pos (ms * 1000000)
  unfolding cooldown_setting from_milliseconds wrap_int64
  cooldown_setting-exact ms said small =
      let fits : ms * 1000000 < 2 ^ 63 = omega (arith, small) in
      let same : (ms * 1000000) % 2 ^ 64 ≡ ms * 1000000 = omega (arith, fits) in
      ap from_milliseconds (setting_said ms said) ∙ ground (arith, same, fits)
