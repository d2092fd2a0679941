-- ===== src/Text/Base64.antt =====
-- `base64.StdEncoding`: `EncodeToString` and `DecodeString`, padded and not strict, so that the
-- decoder skips line breaks and ignores the unused bits of the last character.
use oiaj.Base.{
  ℕ, ◌+◌, ◌-◌, ◌*◌, ◌/◌, ◌%◌, ◌<◌, ◌≡◌, refl, Bool, false, ◌&&◌, ◌||◌, Option, none, some, [], ◌∷◌,
  arith, ltb, leb, ◌==◌, if◌then◌else◌, All,
}
use oiaj.Text.Bytes.{Bytes, codes, Lacks}

-- The character of a value below 64.
letter : ℕ → ℕ
letter i =
    if ltb i 26
    then b'A' + i
    else if ltb i 52
    then b'a' + (i - 26)
    else if ltb i 62
    then b'0' + (i - 52)
    else if i == 62
    then b'+'
    else b'/'

-- The value of a character of the alphabet.
value : ℕ → Option ℕ
value c =
    if leb b'A' c && leb c b'Z'
    then some (c - b'A')
    else if leb b'a' c && leb c b'z'
    then some (c - b'a' + 26)
    else if leb b'0' c && leb c b'9'
    then some (c - b'0' + 52)
    else if c == b'+'
    then some 62
    else if c == b'/'
    then some 63
    else none

unfoldable pub encode : Bytes → Bytes
unfolding letter
encode [] = []
encode (a ∷ []) = letter (a / 4) ∷ letter (a % 4 * 16) ∷ b'=' ∷ b'=' ∷ []
encode (a ∷ b ∷ []) =
    letter (a / 4) ∷ letter (a % 4 * 16 + b / 16) ∷ letter (b % 16 * 4) ∷ b'=' ∷ []
encode (a ∷ b ∷ c ∷ rest) =
    letter (a / 4)
    ∷ letter (a % 4 * 16 + b / 16)
    ∷ letter (b % 16 * 4 + c / 64)
    ∷ letter (c % 64)
    ∷ encode rest

-- The bytes of a quantum of two, three or four values.
one_byte : Option ℕ → Option ℕ → Option Bytes
one_byte (some p) (some q) = some ((p * 4 + q / 16) ∷ [])
one_byte _ _ = none

two_bytes : Option ℕ → Option ℕ → Option ℕ → Option Bytes
two_bytes (some p) (some q) (some r) = some ((p * 4 + q / 16) ∷ (q % 16 * 16 + r / 4) ∷ [])
two_bytes _ _ _ = none

three_bytes : Option ℕ → Option ℕ → Option ℕ → Option ℕ → Option Bytes → Option Bytes
three_bytes (some p) (some q) (some r) (some s) (some rest) =
    some ((p * 4 + q / 16) ∷ (q % 16 * 16 + r / 4) ∷ (r % 4 * 64 + s) ∷ rest)
three_bytes _ _ _ _ _ = none

-- A padded quantum is the last one.
last_quantum : ℕ → ℕ → ℕ → Option Bytes
unfolding value one_byte two_bytes
last_quantum a b c =
    if c == b'=' then one_byte (value a) (value b) else two_bytes (value a) (value b) (value c)

is_last : ℕ → Bytes → Bool
is_last d [] = d == b'='
is_last d (_ ∷ _) = false

quanta : Bytes → Option Bytes
unfolding last_quantum three_bytes is_last value
quanta [] = some []
quanta (a ∷ b ∷ c ∷ d ∷ rest) =
    let more = quanta rest in
    if is_last d rest
    then last_quantum a b c
    else three_bytes (value a) (value b) (value c) (value d) more
quanta _ = none

skip_breaks : Bytes → Bytes
skip_breaks [] = []
skip_breaks (c ∷ s) = let rest = skip_breaks s in if c == 10 || c == 13 then rest else c ∷ rest

-- `none` stands for `CorruptInputError`.
unfoldable pub decode : Bytes → Option Bytes
unfolding quanta skip_breaks
decode s = quanta (skip_breaks s)

runs : encode (codes "oiaj!") ≡ codes "b2lhaiE="
unfolding encode
runs = refl

decode_run : decode (codes "b2lh\naiE=") ≡ some (codes "oiaj!")
unfolding decode
decode_run = refl

decode_bad : decode (codes "b2lh=iE=") ≡ none
unfolding decode
decode_bad = refl

-- Every byte of the text fits in eight bits.
abbrev pub AreBytes : Bytes → Type 0
AreBytes s = All (λ b. b < 256) s

value-letter : (i : ℕ) → i < 64 → value (letter i) ≡ some i
unfolding value letter
value-letter i h = ground arith

-- A letter is no line break, no padding and no colon.
letter_plain :
    (i : ℕ)
    → i < 64
    → ((letter i == 10 || letter i == 13) ≡ false)
      × ((letter i == b'=') ≡ false)
      × ((letter i == b':') ≡ false)
unfolding letter
letter_plain i h = ground arith

abbrev IsPlain : ℕ → Type 0
IsPlain c = ((c == 10 || c == 13) ≡ false) × ((c == b':') ≡ false)

letter-IsPlain : (i : ℕ) → i < 64 → IsPlain (letter i)
letter-IsPlain i h = ((letter_plain i h).0, (letter_plain i h).2)

-- The six bits of each letter.
high : (a : ℕ) → a < 256 → a / 4 < 64
high a h = omega arith

middle : (a b : ℕ) → b < 256 → a % 4 * 16 + b / 16 < 64
middle a b h = omega arith

low : (b c : ℕ) → c < 256 → b % 16 * 4 + c / 64 < 64
low b c h = omega arith

encode-IsPlain : (s : Bytes) → AreBytes s → All IsPlain (encode s)
unfolding encode
encode-IsPlain [] h = tt
encode-IsPlain (a ∷ []) h = (
  letter-IsPlain _ (high a h.0),
  (letter-IsPlain (a % 4 * 16) (omega arith), ((refl, refl), ((refl, refl), tt))),
)
encode-IsPlain (a ∷ b ∷ []) h = (
  letter-IsPlain _ (high a h.0),
  (
    letter-IsPlain _ (middle a b h.1.0),
    (letter-IsPlain (b % 16 * 4) (omega arith), ((refl, refl), tt)),
  ),
)
encode-IsPlain (a ∷ b ∷ c ∷ rest) h = (
  letter-IsPlain _ (high a h.0),
  (
    letter-IsPlain _ (middle a b h.1.0),
    (
      letter-IsPlain _ (low b c h.1.1.0),
      (letter-IsPlain (c % 64) (omega arith), encode-IsPlain rest h.1.1.1),
    ),
  ),
)

skip_breaks-IsPlain : (s : Bytes) → All IsPlain s → skip_breaks s ≡ s
unfolding skip_breaks
skip_breaks-IsPlain [] h = refl
skip_breaks-IsPlain (c ∷ s) h = rw (h.0.0, skip_breaks-IsPlain s h.1)

-- No colon is encoded.
IsPlain-Lacks : (s : Bytes) → All IsPlain s → Lacks b':' s
IsPlain-Lacks [] h = tt
IsPlain-Lacks (c ∷ s) h = (h.0.1, IsPlain-Lacks s h.1)

pub encode-Lacks : (s : Bytes) → AreBytes s → Lacks b':' (encode s)
encode-Lacks s h = IsPlain-Lacks (encode s) (encode-IsPlain s h)

is_last-letter : (i : ℕ) (s : Bytes) → i < 64 → is_last (letter i) s ≡ false
unfolding is_last
is_last-letter i [] h = (letter_plain i h).1
is_last-letter i (c ∷ s) h = refl

quanta-encode : (s : Bytes) → AreBytes s → quanta (encode s) ≡ some s
unfolding encode quanta
quanta-encode [] h = refl
quanta-encode (a ∷ []) h =
    rw (value-letter (a / 4) (high a h.0), value-letter (a % 4 * 16) (omega arith)) (ground arith)
quanta-encode (a ∷ b ∷ []) h =
    rw
      (
        (letter_plain (b % 16 * 4) (omega arith)).1,
        value-letter (a / 4) (high a h.0),
        value-letter (a % 4 * 16 + b / 16) (middle a b h.1.0),
        value-letter (b % 16 * 4) (omega arith),
      )
      (ground arith)
quanta-encode (a ∷ b ∷ c ∷ rest) h =
    rw
      (
        is_last-letter (c % 64) (encode rest) (omega arith),
        value-letter (a / 4) (high a h.0),
        value-letter (a % 4 * 16 + b / 16) (middle a b h.1.0),
        value-letter (b % 16 * 4 + c / 64) (low b c h.1.1.0),
        value-letter (c % 64) (omega arith),
        quanta-encode rest h.1.1.1,
      )
      (ground arith)

-- Decoding the encoding of a sequence of bytes gives it back.
pub decode-encode : (s : Bytes) → AreBytes s → decode (encode s) ≡ some s
unfolding decode
decode-encode s h = rw (skip_breaks-IsPlain (encode s) (encode-IsPlain s h)) (quanta-encode s h)
