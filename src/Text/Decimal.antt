-- ===== src/Text/Decimal.antt =====
-- `fmt.Sprintf("%d", n)` and `strconv.ParseInt(s, 10, 64)`.
use oiaj.Base.{
  ℕ, zero, suc, ◌+◌, ◌-◌, ◌*◌, ◌/◌, ◌%◌, ◌^◌, ◌<◌, ◌≡◌, refl, Bool, true, false, ◌&&◌, Option, none,
  some, [], ◌∷◌, arith, ltb, leb, ◌==◌, if◌then◌else◌, Bool-cases, inl, inr,
}
use oiaj.Base.Int.{ℤ, pos, negsuc}
use oiaj.Text.Bytes.{Bytes, codes, Lacks}

abbrev pub is_digit : ℕ → Bool
is_digit c = leb b'0' c && leb c b'9'

-- The digits of `n` in front of `out`; one more round than `n` is enough.
digits : ℕ → ℕ → Bytes → Bytes
digits zero n out = out
digits (suc rounds) n out =
    let rest = digits rounds (n / 10) ((b'0' + n % 10) ∷ out) in
    if ltb n 10 then (b'0' + n) ∷ out else rest

unfoldable pub print_ℕ : ℕ → Bytes
unfolding digits
print_ℕ n = digits (suc n) n []

-- `%d` of an int64.
unfoldable pub print_int : ℤ → Bytes
unfolding print_ℕ
print_int (pos n) = print_ℕ n
print_int (negsuc n) = b'-' ∷ print_ℕ (suc n)

scan : ℕ → Bytes → Option ℕ
scan n [] = some n
scan n (c ∷ s) = if is_digit c then scan (n * 10 + (c - b'0')) s else none

-- An empty run of digits is a syntax error.
magnitude : Bytes → Option ℕ
unfolding scan
magnitude [] = none
magnitude (c ∷ s) = scan 0 (c ∷ s)

positive : Option ℕ → Option ℤ
positive none = none
positive (some n) = if ltb n (2 ^ 63) then some (pos n) else none

negative : Option ℕ → Option ℤ
negative none = none
negative (some zero) = some (pos 0)
negative (some (suc n)) = if ltb n (2 ^ 63) then some (negsuc n) else none

-- `none` stands for `ErrSyntax` and `ErrRange`, which the program does not tell apart.
unfoldable pub parse_int : Bytes → Option ℤ
unfolding magnitude positive negative
parse_int [] = none
parse_int (c ∷ s) =
    if c == b'+'
    then positive (magnitude s)
    else if c == b'-'
    then negative (magnitude s)
    else positive (magnitude (c ∷ s))

scan-digits : (rounds n : ℕ) (out : Bytes) → n < rounds → scan 0 (digits rounds n out) ≡ scan n out
unfolding digits scan
scan-digits zero n out h = absurd (omega arith)
scan-digits (suc rounds) n out h =
    ground (arith, scan-digits rounds (n / 10) ((b'0' + n % 10) ∷ out))

-- The text begins with a digit.
abbrev Starts : Bytes → Type 0
Starts [] = ⊥
Starts (c ∷ s) = is_digit c ≡ true

digits-Starts : (rounds n : ℕ) (out : Bytes) → n < rounds → Starts (digits rounds n out)
unfolding digits
digits-Starts zero n out h = absurd (omega arith)
digits-Starts (suc rounds) n out h =
    ground (arith, digits-Starts rounds (n / 10) ((b'0' + n % 10) ∷ out))

digits-Lacks :
    (sep rounds n : ℕ) (out : Bytes)
    → is_digit sep ≡ false
    → Lacks sep out
    → Lacks sep (digits rounds n out)
unfolding digits
digits-Lacks sep zero n out h k = k
digits-Lacks sep (suc rounds) n out h k = elim (Bool-cases (ltb n 10)) [
  | inl last ↦ rw last (ground arith, k)
  | inr more ↦
      rw more (digits-Lacks sep rounds (n / 10) ((b'0' + n % 10) ∷ out) h (ground arith, k))
]

-- A text that begins with a digit is read as a magnitude.
positive-Starts : (s : Bytes) → Starts s → parse_int s ≡ positive (scan 0 s)
unfolding parse_int
positive-Starts [] h = absurd h
positive-Starts (c ∷ s) h = ground arith

magnitude-Starts : (s : Bytes) → Starts s → magnitude s ≡ scan 0 s
unfolding magnitude
magnitude-Starts [] h = absurd h
magnitude-Starts (c ∷ s) h = refl

-- The range of an int64.
abbrev pub InInt64 : ℤ → Type 0
InInt64 (pos n) = n < 2 ^ 63
InInt64 (negsuc n) = n < 2 ^ 63

scan-print_ℕ : (n : ℕ) → scan 0 (print_ℕ n) ≡ some n
unfolding print_ℕ scan
scan-print_ℕ n = scan-digits (suc n) n [] (omega arith)

print_ℕ-Starts : (n : ℕ) → Starts (print_ℕ n)
unfolding print_ℕ
print_ℕ-Starts n = digits-Starts (suc n) n [] (omega arith)

-- Reading a printed integer gives it back, for an integer in the range of int64.
pub parse_int-print_int : (i : ℤ) → InInt64 i → parse_int (print_int i) ≡ some i
unfolding print_int positive negative
parse_int-print_int (pos n) h =
    rw (positive-Starts (print_ℕ n) (print_ℕ-Starts n), scan-print_ℕ n) (ground arith)
parse_int-print_int (negsuc n) h =
    unfold parse_int in
    rw (magnitude-Starts (print_ℕ (suc n)) (print_ℕ-Starts (suc n)), scan-print_ℕ (suc n))
      (ground arith)

-- A byte that is neither a digit nor a minus sign is not printed.
pub print_int-Lacks :
    (sep : ℕ) (i : ℤ) → is_digit sep ≡ false → (b'-' == sep) ≡ false → Lacks sep (print_int i)
unfolding print_int print_ℕ
print_int-Lacks sep (pos n) h k = digits-Lacks sep (suc n) n [] h tt
print_int-Lacks sep (negsuc n) h k = (k, digits-Lacks sep (suc (suc n)) (suc n) [] h tt)

print_run : print_int (negsuc 119) ≡ codes "-120"
unfolding print_int
print_run = refl

parse_run : parse_int (codes "9223372036854775808") ≡ none
unfolding parse_int scan
parse_run = refl
