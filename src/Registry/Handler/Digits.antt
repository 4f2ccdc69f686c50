-- ===== src/Registry/Handler/Digits.antt =====
-- The numbers of a query.
use noqeri_registry.Prelude.{
  ℕ, zero, suc, ◌+◌, ◌-◌, ◌*◌, ◌^◌, ◌≤◌, ◌<◌, ◌≡◌, ◌≢◌, ◌↔◌, inl, inr, refl, sym, ◌∙◌, true, false,
  not, [], ◌∷◌, none, some, arith, length, ltb, if◌then◌else◌, Bool-cases, All, ltb-false,
}
use noqeri_registry.Prelude.Text.{Bytes}
use noqeri_registry.Prelude.Number.{pos, parse_int}
use noqeri_registry.Prelude.Numeral.{IsDigit, value, parse_uint-digits}
use noqeri_registry.Registry.Handler.{digits_only, at_most, nonnegative}

-- 10 ^ k
power_of_ten : ℕ → ℕ
power_of_ten zero = 1
power_of_ten (suc k) = 10 * power_of_ten k

value-lt :
    (m n : ℕ) (s : Bytes) → All IsDigit s → length s ≤ m → value n s < (n + 1) * power_of_ten m
unfolding value power_of_ten
value-lt zero n [] d h = omega arith
value-lt zero n (c ∷ s) d h = absurd (omega arith)
value-lt (suc m) n [] d h = let rest = value-lt m n [] d (omega arith) in grind arith
value-lt (suc m) n (c ∷ s) d h =
    let next = n * 10 + (c - b'0') in
    let step : next + 1 ≤ (n + 1) * 10 = omega arith in
    let rest = value-lt m next s d.1 (omega arith) in grind arith

digits_only-IsDigit : (s : Bytes) → digits_only s ≡ true → All IsDigit s
unfolding digits_only
digits_only-IsDigit [] h = tt
digits_only-IsDigit (c ∷ s) h = ((ground arith, ground arith), digits_only-IsDigit s (ground arith))

IsDigit-digits_only : (s : Bytes) → All IsDigit s → digits_only s ≡ true
unfolding digits_only
IsDigit-digits_only [] h = refl
IsDigit-digits_only (c ∷ s) h = ground (arith, IsDigit-digits_only s h.1)

value-small : (s : Bytes) → All IsDigit s → length s ≤ 8 → value 0 s < 10 ^ 8
unfolding power_of_ten
value-small s d h = value-lt 8 0 s d h

parse_int-digits :
    (c : ℕ) (s : Bytes)
    → All IsDigit (c ∷ s)
    → length (c ∷ s) ≤ 8
    → parse_int (c ∷ s) ≡ some (pos (value 0 (c ∷ s)))
unfolding parse_int
parse_int-digits c s d h = ground (arith, parse_uint-digits c s d, value-small (c ∷ s) d h)

-- A number of a query in words: what stands for an empty text, or up to eight digits of at most a
-- largest value.
pub data IsCount (text : Bytes) (otherwise largest n : ℕ) : Type 0 where
  absent : text ≡ [] → n ≡ otherwise → IsCount text otherwise largest n
  given :
      text ≢ []
      → length text ≤ 8
      → All IsDigit text
      → value 0 text ≡ n
      → n ≤ largest
      → IsCount text otherwise largest n

-- The tests of nonnegative on a text that is not empty.
nonnegative-cons :
    (c : ℕ) (s : Bytes) (otherwise largest : ℕ)
    → nonnegative (c ∷ s) otherwise largest ≡ (
        if ltb 8 (length (c ∷ s))
        then none
        else if not (digits_only (c ∷ s))
        then none
        else at_most largest (parse_int (c ∷ s)))
unfolding nonnegative
nonnegative-cons c s otherwise largest = refl

nonnegative-digits :
    (c : ℕ) (s : Bytes) (otherwise largest : ℕ)
    → All IsDigit (c ∷ s)
    → length (c ∷ s) ≤ 8
    → nonnegative (c ∷ s) otherwise largest
      ≡ (if ltb largest (value 0 (c ∷ s)) then none else some (value 0 (c ∷ s)))
nonnegative-digits c s otherwise largest d h =
    let short : ltb 8 (length (c ∷ s)) ≡ false = ground (arith, h) in
    rw
      (
        nonnegative-cons c s otherwise largest,
        short,
        IsDigit-digits_only (c ∷ s) d,
        parse_int-digits c s d h,
      )
      refl

taken-digits :
    (c : ℕ) (s : Bytes) (otherwise largest n : ℕ)
    → nonnegative (c ∷ s) otherwise largest ≡ some n
    → (length (c ∷ s) ≤ 8) × All IsDigit (c ∷ s)
taken-digits c s otherwise largest n h = elim (Bool-cases (ltb 8 (length (c ∷ s)))) [
  | inl long ↦ absurd (cc (nonnegative-cons c s otherwise largest, long, h))
  | inr short ↦ elim (Bool-cases (digits_only (c ∷ s))) [
    | inl only ↦ (ltb-false 8 (length (c ∷ s)) short, digits_only-IsDigit (c ∷ s) only)
    | inr other ↦ absurd (ground (arith, nonnegative-cons c s otherwise largest, short, other, h))
  ]
]

if-below :
    (largest v n : ℕ) → (if ltb largest v then none else some v) ≡ some n → (v ≡ n) × (n ≤ largest)
if-below largest v n h = ground (arith, h)

-- A number of a query is taken exactly if its text is empty, as the number that stands for it, or
-- has one to eight bytes, all digits, whose decimal value is at most the largest one, as that value.
pub nonnegative_iff :
    (text : Bytes) (otherwise largest n : ℕ)
    → (nonnegative text otherwise largest ≡ some n) ↔ IsCount text otherwise largest n
unfolding nonnegative
nonnegative_iff text otherwise largest n = (sound text, complete text)
  where
    sound : (s : Bytes) → nonnegative s otherwise largest ≡ some n → IsCount s otherwise largest n
    sound [] h = absent refl (cc h)
    sound (c ∷ s) h =
        let (short, d) = taken-digits c s otherwise largest n h in
        let (v, small) =
          if-below largest (value 0 (c ∷ s)) n
            (sym (nonnegative-digits c s otherwise largest d short) ∙ h) in
        given (λ e. absurd (cc e)) short d v small

    complete :
        (s : Bytes) → IsCount s otherwise largest n → nonnegative s otherwise largest ≡ some n
    complete s (absent e same_number) = rw (e, same_number) refl
    complete [] (given full short d v small) = absurd (full refl)
    complete (c ∷ s) (given full short d v small) =
        nonnegative-digits c s otherwise largest d short ∙ ground (arith, v, small)
