-- ===== src/Prelude/Number.antt =====
-- Decimal and hexadecimal text: what the program uses of the packages `strconv` and `encoding/hex`.
use Prim.Native.Nat.{ℕ, zero, suc, ◌+◌, ◌-◌, ◌*◌, ◌/◌, ◌%◌, ◌^◌}
use mathlib.Core.Path.{◌≡◌, refl}
use mathlib.Core.Bool.{◌&&◌, ◌||◌}
use mathlib.Core.Option.{Option, none, some}
use mathlib.Core.List.{[], ◌∷◌}
use noqeri_registry.Prelude.Tests.{ltb, leb, ◌==◌, if◌then◌else◌}
use noqeri_registry.Prelude.Text.{Bytes, codes}

-- `negsuc n` is -(n + 1).
pub data ℤ : Type 0 where
  pos : ℕ → ℤ
  negsuc : ℕ → ℤ

-- The digits of a text behind the number read so far, up to a largest value.
unfoldable pub scan_digits : ℕ → Bytes → ℕ → Option ℕ
scan_digits limit [] n = some n
scan_digits limit (c ∷ s) n =
    let next = n * 10 + (c - b'0') in
    let rest = scan_digits limit s next in
    if ltb c b'0' || ltb b'9' c then none else if ltb limit next then none else rest

-- `strconv.ParseUint(s, 10, 64)`
unfoldable pub parse_uint : Bytes → Option ℕ
unfolding scan_digits
parse_uint [] = none
parse_uint (c ∷ s) = scan_digits (2 ^ 64 - 1) (c ∷ s) 0

abbrev non_negative : Option ℕ → Option ℤ
non_negative none = none
non_negative (some n) = if ltb n (2 ^ 63) then some (pos n) else none

abbrev negative : Option ℕ → Option ℤ
negative none = none
negative (some zero) = some (pos zero)
negative (some (suc n)) = if ltb n (2 ^ 63) then some (negsuc n) else none

-- `strconv.ParseInt(s, 10, 64)`
unfoldable pub parse_int : Bytes → Option ℤ
unfolding parse_uint
parse_int [] = none
parse_int (c ∷ s) =
    if c == b'-'
    then negative (parse_uint s)
    else if c == b'+'
    then non_negative (parse_uint s)
    else non_negative (parse_uint (c ∷ s))

-- The decimal digits of a number in front of a text, at most `fuel` of them.
unfoldable pub digits : ℕ → ℕ → Bytes → Bytes
digits zero n out = out
digits (suc fuel) n out =
    let rest = digits fuel (n / 10) ((b'0' + n % 10) ∷ out) in
    if ltb n 10 then (b'0' + n) ∷ out else rest

-- `strconv.FormatInt(n, 10)` of a number that is not negative; 2 ^ 64 has twenty digits.
unfoldable pub format_nat : ℕ → Bytes
unfolding digits
format_nat n = digits 20 n []

unfoldable pub hex_digit : ℕ → Option ℕ
hex_digit c =
    if leb b'0' c && leb c b'9'
    then some (c - b'0')
    else if leb b'a' c && leb c b'f'
    then some (c - b'a' + 10)
    else if leb b'A' c && leb c b'F'
    then some (c - b'A' + 10)
    else none

abbrev joined : Option ℕ → Option ℕ → Option Bytes → Option Bytes
joined (some a) (some b) (some rest) = some ((a * 16 + b) ∷ rest)
joined _ _ _ = none

-- `hex.DecodeString`, `none` for its errors
unfoldable pub hex_decode : Bytes → Option Bytes
unfolding hex_digit
hex_decode [] = some []
hex_decode (a ∷ []) = none
hex_decode (a ∷ b ∷ s) = joined (hex_digit a) (hex_digit b) (hex_decode s)

number_tests :
    (parse_uint (codes "18446744073709551615") ≡ some (2 ^ 64 - 1))
    × (parse_uint (codes "18446744073709551616") ≡ none)
    × (parse_int (codes "-5") ≡ some (negsuc 4))
    × (parse_int (codes "9223372036854775808") ≡ none)
    × (format_nat 1700000000 ≡ codes "1700000000")
    × (hex_decode (codes "0aFf") ≡ some (10 ∷ 255 ∷ []))
unfolding parse_uint parse_int format_nat hex_decode codes
number_tests = (refl, refl, refl, refl, refl, refl)
