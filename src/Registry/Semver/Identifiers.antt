-- ===== src/Registry/Semver/Identifiers.antt =====
-- The second loop of semverCompare against the order of pre-release identifiers.
use noqeri_registry.Prelude.{
  ℕ, ◌<◌, ◌+◌, ◌*◌, ◌-◌, ◌^◌, ◌≡◌, ◌≢◌, List, [], ◌∷◌, Option, none, some, All, inl, inr, arith, ap,
  refl, sym, ◌∙◌, subst, Bool-cases,
}
use noqeri_registry.Prelude.Text.{Bytes, str_eq, str_eq_iff, split}
use noqeri_registry.Prelude.Number.{parse_uint, scan_digits}
use noqeri_registry.Prelude.Cutting.{Lacks, split-Lacks, split-append}
use noqeri_registry.Prelude.Order.{
  same, nat_order, nat_order-IsOrder, list_order, list_order-IsOrder, option_order,
}
use noqeri_registry.Prelude.Numeral.{
  IsNumeral, value, IsNumeral-digits, parse_uint-numeral, numeral_unique,
}
use noqeri_registry.Registry.Semver.{compare_identifier, compare_identifiers, compare_releases}
use noqeri_registry.Registry.Semver.Shape.{digits-Lacks}
use noqeri_registry.Registry.Semver.Version.{
  Identifier, number, word, identifier_order, identifier_order-IsOrder, IsIdentifier,
  IsIdentifierByte, HasOther, AreIdentifiers, IsLabel, IsSmall, AreSmall,
}

-- The text of an identifier that ParseUint can read if it is a number.
abbrev IsKnown : Bytes → Identifier → Type 0
IsKnown s (number n) = IsNumeral s × (value 0 s ≡ n) × (n < 2 ^ 64)
IsKnown s (word t) = (s ≡ t) × All IsIdentifierByte s × HasOther s

known : (s : Bytes) (i : Identifier) → IsIdentifier s i → IsSmall i → IsKnown s i
known s (number n) h small = (h.0, h.1, small)
known s (word t) h small = h

word-Lacks-dot : (s : Bytes) → All IsIdentifierByte s → Lacks b'.' s
word-Lacks-dot [] h = tt
word-Lacks-dot (c ∷ s) h = (h.0.1, word-Lacks-dot s h.1)

identifier-Lacks-dot : (s : Bytes) (i : Identifier) → IsKnown s i → Lacks b'.' s
identifier-Lacks-dot s (number n) h = digits-Lacks b'.' s (omega arith) (IsNumeral-digits s h.0)
identifier-Lacks-dot s (word t) h = word-Lacks-dot s h.1

-- Texts of identifiers, one by one.
abbrev AreTexts : List Bytes → List Identifier → Type 0
AreTexts [] [] = Unit
AreTexts [] (i ∷ ids) = ⊥
AreTexts (s ∷ texts) [] = ⊥
AreTexts (s ∷ texts) (i ∷ ids) = IsKnown s i × AreTexts texts ids

split-AreTexts :
    (s : Bytes) (ids : List Identifier)
    → AreIdentifiers s ids
    → All IsSmall ids
    → AreTexts (split s b'.') ids
split-AreTexts s [] h small = absurd h
split-AreTexts s (i ∷ []) h small =
    let k = known s i h small.0 in rw (split-Lacks b'.' s (identifier-Lacks-dot s i k)) (k, tt)
split-AreTexts s (i ∷ j ∷ rest) (front, back, joined, h, more) small =
    let k = known front i h small.0 in
    rw (joined, split-append b'.' front back (identifier-Lacks-dot front i k))
      (k, split-AreTexts back (j ∷ rest) more small.1)

-- What ParseUint makes of an identifier.
abbrev read : Identifier → Option ℕ
read (number n) = some n
read (word t) = none

scan_digits-other : (limit n : ℕ) (s : Bytes) → HasOther s → scan_digits limit s n ≡ none
unfolding scan_digits
scan_digits-other limit n [] h = absurd h
scan_digits-other limit n (c ∷ s) (inl h) = ground arith
scan_digits-other limit n (c ∷ s) (inr h) =
    ground (arith, scan_digits-other limit (n * 10 + (c - b'0')) s h)

parse_uint-read : (s : Bytes) (i : Identifier) → IsKnown s i → parse_uint s ≡ read i
unfolding parse_uint
parse_uint-read s (number n) h = ground (arith, parse_uint-numeral s h.0)
parse_uint-read [] (word t) h = refl
parse_uint-read (c ∷ s) (word t) h = scan_digits-other (2 ^ 64 - 1) 0 (c ∷ s) h.2

-- A text is the text of one identifier, and an identifier has one text.
identifier_unique : (s : Bytes) (i j : Identifier) → IsKnown s i → IsKnown s j → i ≡ j
identifier_unique s (number m) (number n) h k = ap number (sym h.1 ∙ k.1)
identifier_unique s (word t) (word u) h k = ap word (sym h.0 ∙ k.0)
identifier_unique s (number m) (word t) h k =
    absurd (cc (parse_uint-read s (number m) h, parse_uint-read s (word t) k))
identifier_unique s (word t) (number m) h k =
    absurd (cc (parse_uint-read s (number m) k, parse_uint-read s (word t) h))

text_unique : (s t : Bytes) (i : Identifier) → IsKnown s i → IsKnown t i → s ≡ t
text_unique s t (number n) h k = numeral_unique s t h.0 k.0 (h.1 ∙ sym k.1)
text_unique s t (word u) h k = h.0 ∙ sym k.0

different-identifiers : (a b : Bytes) (i j : Identifier) → IsKnown a i → IsKnown b j → a ≢ b → i ≢ j
different-identifiers a b i j h k different e =
    different (text_unique a b i h (subst (IsKnown b) (sym e) k))

compare_identifier-order :
    (a b : Bytes) (i j : Identifier)
    → IsKnown a i
    → IsKnown b j
    → a ≢ b
    → compare_identifier a b ≡ identifier_order i j
unfolding compare_identifier identifier_order nat_order
compare_identifier-order a b (number m) (number n) h k different =
    let apart : m ≢ n =
      λ e. different-identifiers a b (number m) (number n) h k different (ap number e) in
    rw (parse_uint-read a (number m) h, parse_uint-read b (number n) k, compare_identifier)
      (ground arith)
compare_identifier-order a b (number m) (word t) h k different =
    rw (parse_uint-read a (number m) h, parse_uint-read b (word t) k, compare_identifier) refl
compare_identifier-order a b (word t) (number n) h k different =
    rw (parse_uint-read a (word t) h, parse_uint-read b (number n) k, compare_identifier) refl
compare_identifier-order a b (word t) (word u) h k different =
    let apart : list_order nat_order a b ≢ same =
      λ e. different ((list_order-IsOrder nat_order nat_order-IsOrder).exact a b e) in
    rw
      (parse_uint-read a (word t) h, parse_uint-read b (word u) k, ← h.0, ← k.0, compare_identifier)
      (ground arith)

compare_texts-order :
    (xs ys : List Bytes) (ids others : List Identifier)
    → AreTexts xs ids
    → AreTexts ys others
    → compare_identifiers xs ys ≡ list_order identifier_order ids others
unfolding compare_identifiers list_order
compare_texts-order [] [] [] [] h k = refl
compare_texts-order [] [] (i ∷ ids) others h k = absurd h
compare_texts-order [] [] [] (j ∷ others) h k = absurd k
compare_texts-order [] (b ∷ ys) [] [] h k = absurd k
compare_texts-order [] (b ∷ ys) [] (j ∷ others) h k = refl
compare_texts-order [] (b ∷ ys) (i ∷ ids) others h k = absurd h
compare_texts-order (a ∷ xs) ys [] others h k = absurd h
compare_texts-order (a ∷ xs) [] (i ∷ ids) [] h k = refl
compare_texts-order (a ∷ xs) [] (i ∷ ids) (j ∷ others) h k = absurd k
compare_texts-order (a ∷ xs) (b ∷ ys) (i ∷ ids) [] h k = absurd k
compare_texts-order (a ∷ xs) (b ∷ ys) (i ∷ ids) (j ∷ others) h k = elim (Bool-cases (str_eq a b)) [
  | inl equal ↦
      let same_text = (str_eq_iff a b).0 equal in
      let e : i ≡ j = identifier_unique a i j h.0 (subst (λ s. IsKnown s j) (sym same_text) k.0) in
      rw (equal, e, identifier_order-IsOrder.reflexive j)
        (compare_texts-order xs ys ids others h.1 k.1)
  | inr apart ↦
      let different : a ≢ b = λ e. cc ((str_eq_iff a b).1 e) in
      let decided = compare_identifier-order a b i j h.0 k.0 different in
      let strict : identifier_order i j ≢ same = λ e.
        different-identifiers a b i j h.0 k.0 different (identifier_order-IsOrder.exact i j e) in
      rw (apart, decided) (ground arith)
]

pub compare_releases-order :
    (s t : Option Bytes) (v w : Option (List Identifier))
    → IsLabel s v
    → IsLabel t w
    → AreSmall v
    → AreSmall w
    → compare_releases s t ≡ option_order (list_order identifier_order) v w
unfolding compare_releases option_order
compare_releases-order none none none none h k small small' = refl
compare_releases-order none none none (some w) h k small small' = absurd k
compare_releases-order none t (some v) w h k small small' = absurd h
compare_releases-order none (some t) none none h k small small' = absurd k
compare_releases-order none (some t) none (some w) h k small small' = refl
compare_releases-order (some s) t none w h k small small' = absurd h
compare_releases-order (some s) none (some v) none h k small small' = refl
compare_releases-order (some s) none (some v) (some w) h k small small' = absurd k
compare_releases-order (some s) (some t) (some v) none h k small small' = absurd k
compare_releases-order (some s) (some t) (some v) (some w) h k small small' =
    compare_texts-order (split s b'.') (split t b'.') v w (split-AreTexts s v h small)
      (split-AreTexts t w k small')
