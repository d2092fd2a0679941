-- ===== src/Text/Tests.antt =====
-- Runs of the text functions.
use oiaj.Base.{◌≡◌, refl, some, [], ◌∷◌}
use oiaj.Base.Int.{negsuc}
use oiaj.Text.Bytes.{codes}
use oiaj.Text.Decimal.{print_int, parse_int}
use oiaj.Text.Base64.{encode, decode}

print_negative : print_int (negsuc 41) ≡ codes "-42"
unfolding print_int
print_negative = refl

encode_padded : encode (77 ∷ 97 ∷ 110 ∷ 77 ∷ []) ≡ codes "TWFuTQ=="
unfolding encode
encode_padded = refl

parse_negative : parse_int (codes "-42") ≡ some (negsuc 41)
unfolding parse_int
parse_negative = refl

decode_padded : decode (codes "TWFuTQ==") ≡ some (77 ∷ 97 ∷ 110 ∷ 77 ∷ [])
unfolding decode
decode_padded = refl
