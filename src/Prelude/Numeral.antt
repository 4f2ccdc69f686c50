-- ===== src/Prelude/Numeral.antt =====
-- Decimal numerals without leading zeros: their values, and what `strconv.ParseUint` reads of them.
use noqeri_registry.Prelude.Tests.{ltb, if◌then◌else◌, Bool-cases, ltb→lt, ltb-false}
use noqeri_registry.Prelude.Lists.{length, All}
use noqeri_registry.Prelude.Text.{Bytes}
use noqeri_registry.Prelude.Number.{scan_digits, parse_uint}
use noqeri_registry.Prelude.Order.{
  Sign, same, then_by, nat_order, nat_order-IsOrder, list_order, list_order-same,
}
use Prim.Native.Nat.{ℕ, ◌+◌, ◌-◌, ◌*◌, ◌^◌, ◌≤◌, ◌<◌}
use mathlib.Core.Path.{◌≡◌, sym, ap, ◌∙◌}
use mathlib.Core.Logic.{inl, inr}
use mathlib.Core.Option.{none, some}
use mathlib.Core.List.{[], ◌∷◌}
use native.Mathlib.Omega.{arith}

abbrev pub IsDigit : ℕ → Type 0
IsDigit c = (b'0' ≤ c) × (c ≤ b'9')

-- The number that the digits of a text make behind a number.
unfoldable pub value : ℕ → Bytes → ℕ
value n [] = n
value n (c ∷ s) = value (n * 10 + (c - b'0')) s

pub data IsNumeral : Bytes → Type 0 where
  zero_numeral : (s : Bytes) → s ≡ b'0' ∷ [] → IsNumeral s
  positive_numeral :
      (s : Bytes) (d : ℕ) (t : Bytes)
      → s ≡ d ∷ t
      → b'0' < d
      → d ≤ b'9'
      → All IsDigit t
      → IsNumeral s

value-ge : (n : ℕ) (s : Bytes) → n ≤ value n s
unfolding value
value-ge n [] = omega arith
value-ge n (c ∷ s) = omega (arith, value-ge (n * 10 + (c - b'0')) s)

-- `ParseUint` reads digits exactly if their value is in range.
scan_digits-value :
    (limit n : ℕ) (s : Bytes)
    → All IsDigit s
    → n ≤ limit
    → scan_digits limit s n ≡ (if ltb limit (value n s) then none else some (value n s))
unfolding scan_digits value
scan_digits-value limit n [] d h = ground arith
scan_digits-value limit n (c ∷ s) d h =
    let next = n * 10 + (c - b'0') in
    ground (arith, value-ge next s, scan_digits-value limit next s d.1)

pub IsNumeral-digits : (s : Bytes) → IsNumeral s → All IsDigit s
IsNumeral-digits s (zero_numeral _ e) = rw e ((omega arith, omega arith), tt)
IsNumeral-digits s (positive_numeral _ d t e low high digits) = rw e ((omega arith, high), digits)

pub parse_uint-digits :
    (c : ℕ) (s : Bytes)
    → All IsDigit (c ∷ s)
    → parse_uint (c ∷ s)
      ≡ (if ltb (2 ^ 64 - 1) (value 0 (c ∷ s)) then none else some (value 0 (c ∷ s)))
unfolding parse_uint
parse_uint-digits c s d = scan_digits-value (2 ^ 64 - 1) 0 (c ∷ s) d (omega arith)

pub parse_uint-numeral :
    (s : Bytes)
    → IsNumeral s
    → parse_uint s ≡ (if ltb (2 ^ 64 - 1) (value 0 s) then none else some (value 0 s))
parse_uint-numeral s (zero_numeral _ e) =
    rw e (parse_uint-digits b'0' [] ((omega arith, omega arith), tt))
parse_uint-numeral s (positive_numeral _ d t e low high digits) =
    rw e (parse_uint-digits d t ((omega arith, high), digits))

-- Numbers in front decide, whatever digits follow, where the second text is as long.
value_mono :
    (n m : ℕ) (s t : Bytes) → All IsDigit s → n < m → length s ≤ length t → value n s < value m t
unfolding value
value_mono n m [] t d h k = omega (arith, value-ge m t)
value_mono n m (c ∷ s) [] d h k = absurd (omega arith)
value_mono n m (c ∷ s) (x ∷ t) d h k =
    value_mono (n * 10 + (c - b'0')) (m * 10 + (x - b'0')) s t d.1 (omega arith) (omega arith)

-- Texts of one length are ordered as their values.
value-order :
    (n : ℕ) (s t : Bytes)
    → All IsDigit s
    → All IsDigit t
    → length s ≡ length t
    → list_order nat_order s t ≡ nat_order (value n s) (value n t)
unfolding value list_order nat_order
value-order n [] [] d e k = ground arith
value-order n [] (x ∷ t) d e k = absurd (omega arith)
value-order n (c ∷ s) [] d e k = absurd (omega arith)
value-order n (c ∷ s) (x ∷ t) d e k = elim (Bool-cases (ltb c x)) [
  | inl less ↦
      let h = ltb→lt c x less in
      let v : value (n * 10 + (c - b'0')) s < value (n * 10 + (x - b'0')) t =
        value_mono _ _ s t d.1 (omega arith) (omega arith) in
      ground arith
  | inr more ↦ elim (Bool-cases (ltb x c)) [
    | inl less ↦
        let h = ltb→lt x c less in
        let v : value (n * 10 + (x - b'0')) t < value (n * 10 + (c - b'0')) s =
          value_mono _ _ t s e.1 (omega arith) (omega arith) in
        ground arith
    | inr least ↦
        let same_digit : c ≡ x = omega (arith, ltb-false c x more, ltb-false x c least) in
        let rest = value-order (n * 10 + (x - b'0')) s t d.1 e.1 (omega arith) in
        rw (more, least, same_digit) rest
  ]
]

-- `len(a) < len(b)`, then `a < b`
unfoldable pub text_order : Bytes → Bytes → Sign
text_order a b = then_by (nat_order (length a) (length b)) (list_order nat_order a b)

IsNumeral-nonempty : (s : Bytes) → IsNumeral s → 0 < length s
IsNumeral-nonempty s (zero_numeral _ e) = omega (arith, ap length e)
IsNumeral-nonempty s (positive_numeral _ d t e low high digits) = omega (arith, ap length e)

shorter-lt : (a b : Bytes) → IsNumeral a → IsNumeral b → length a < length b → value 0 a < value 0 b
unfolding value
shorter-lt a b h (zero_numeral _ e) k = absurd (omega (arith, IsNumeral-nonempty a h, ap length e))
shorter-lt a b h (positive_numeral _ d t e low high digits) k = rw e (
    value_mono 0 (0 * 10 + (d - b'0')) a t (IsNumeral-digits a h) (omega arith)
      (omega (arith, ap length e)))

pub text_order-value :
    (a b : Bytes) → IsNumeral a → IsNumeral b → text_order a b ≡ nat_order (value 0 a) (value 0 b)
unfolding text_order nat_order
text_order-value a b h k = elim (Bool-cases (ltb (length a) (length b))) [
  | inl less ↦ let v = shorter-lt a b h k (ltb→lt _ _ less) in ground arith
  | inr more ↦ elim (Bool-cases (ltb (length b) (length a))) [
    | inl less ↦ let v = shorter-lt b a k h (ltb→lt _ _ less) in ground arith
    | inr least ↦
        let v =
          value-order 0 a b (IsNumeral-digits a h) (IsNumeral-digits b k)
            (omega (arith, ltb-false _ _ more, ltb-false _ _ least)) in
        rw (more, least) v
  ]
]

-- A numeral is the only one of its value.
pub numeral_unique : (a b : Bytes) → IsNumeral a → IsNumeral b → value 0 a ≡ value 0 b → a ≡ b
unfolding text_order
numeral_unique a b h k e =
    let equal : text_order a b ≡ same =
      text_order-value a b h k
      ∙ ap (nat_order (value 0 a)) (sym e)
      ∙ nat_order-IsOrder.reflexive (value 0 a) in
    list_order-same nat_order nat_order-IsOrder a b (ground arith)
