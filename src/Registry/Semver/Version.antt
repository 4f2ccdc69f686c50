-- ===== src/Registry/Semver/Version.antt =====
-- Versions and their precedence as semver.org states them: what semverCompare is to decide.
use noqeri_registry.Prelude.{
  ℕ, ◌^◌, ◌<◌, ◌≡◌, true, false, List, [], ◌∷◌, ◌++◌, Option, none, some, All, ◌⊎◌, ◌==◌, arith, ap,
  refl,
}
use noqeri_registry.Prelude.Text.{Bytes}
use noqeri_registry.Prelude.Order.{
  Sign, below, above, same, IsOrder, nat_order, nat_order-IsOrder, list_order, list_order-IsOrder,
  option_order, option_order-IsOrder, pair_order, pair_order-IsOrder,
}
use noqeri_registry.Prelude.Numeral.{IsNumeral, value}
use noqeri_registry.Registry.Semver.Shape.{Shape}
use noqeri_registry.Registry.Pattern.{is_digit, is_label_byte}

pub data Identifier : Type 0 where
  number : ℕ → Identifier
  word : Bytes → Identifier

-- Numbers by size, and below all words; words by their bytes.
unfoldable pub identifier_order : Identifier → Identifier → Sign
identifier_order (number m) (number n) = nat_order m n
identifier_order (number m) (word t) = below
identifier_order (word s) (number n) = above
identifier_order (word s) (word t) = list_order nat_order s t

-- Major, minor and patch number, and the pre-release if there is one; the build label has no part.
abbrev pub Version : Type 0
Version = (ℕ × (ℕ × ℕ)) × Option (List Identifier)

-- The core decides, then a release is above its pre-releases, and these go by their identifiers.
unfoldable pub version_order : Version → Version → Sign
unfolding identifier_order
version_order =
    pair_order (pair_order nat_order (pair_order nat_order nat_order))
      (option_order (list_order identifier_order))

pub identifier_order-IsOrder : IsOrder identifier_order
unfolding identifier_order
identifier_order-IsOrder = record {
  reflexive = go_reflexive;
  exact = go_exact;
  mirrored = go_mirrored;
  transitive = go_transitive;
}
  where
    texts : IsOrder (list_order nat_order)
    texts = list_order-IsOrder nat_order nat_order-IsOrder

    go_reflexive : (a : Identifier) → identifier_order a a ≡ same
    go_reflexive (number m) = nat_order-IsOrder.reflexive m
    go_reflexive (word s) = texts.reflexive s

    go_exact : (a b : Identifier) → identifier_order a b ≡ same → a ≡ b
    go_exact (number m) (number n) h = ap number (nat_order-IsOrder.exact m n h)
    go_exact (number m) (word t) h = cc
    go_exact (word s) (number n) h = cc
    go_exact (word s) (word t) h = ap word (texts.exact s t h)

    go_mirrored :
        (a b : Identifier)
        → identifier_order b a
          ≡ elim (identifier_order a b) [ below ↦ above | same ↦ same | above ↦ below ]
    go_mirrored (number m) (number n) = ground (arith, nat_order-IsOrder.mirrored m n)
    go_mirrored (number m) (word t) = refl
    go_mirrored (word s) (number n) = refl
    go_mirrored (word s) (word t) = ground (arith, texts.mirrored s t)

    go_transitive :
        (a b c : Identifier)
        → identifier_order a b ≡ below
        → identifier_order b c ≡ below
        → identifier_order a c ≡ below
    go_transitive (number m) (number n) (number k) h l = nat_order-IsOrder.transitive m n k h l
    go_transitive (number m) b (word t) h l = refl
    go_transitive (number m) (word s) (number k) h l = cc
    go_transitive (word s) (number n) c h l = cc
    go_transitive (word s) (word t) (number k) h l = cc
    go_transitive (word s) (word t) (word u) h l = texts.transitive s t u h l

pub version_order-IsOrder : IsOrder version_order
unfolding version_order
version_order-IsOrder =
    pair_order-IsOrder _ _
      (pair_order-IsOrder _ _ nat_order-IsOrder
        (pair_order-IsOrder _ _ nat_order-IsOrder nat_order-IsOrder))
      (option_order-IsOrder _ (list_order-IsOrder _ identifier_order-IsOrder))

-- `[0-9A-Za-z-]`: a label byte that does not separate identifiers.
abbrev pub IsIdentifierByte : ℕ → Type 0
IsIdentifierByte c = (is_label_byte c ≡ true) × ((c == b'.') ≡ false)

abbrev pub HasOther : Bytes → Type 0
HasOther [] = ⊥
HasOther (c ∷ s) = (is_digit c ≡ false) ⊎ HasOther s

-- Numbers have no leading zero; a word has a byte that is no digit.
abbrev pub IsIdentifier : Bytes → Identifier → Type 0
IsIdentifier s (number n) = IsNumeral s × (value 0 s ≡ n)
IsIdentifier s (word t) = (s ≡ t) × All IsIdentifierByte s × HasOther s

-- The identifiers of a pre-release with the dots between them.
abbrev pub AreIdentifiers : Bytes → List Identifier → Type 0
AreIdentifiers s [] = ⊥
AreIdentifiers s (i ∷ []) = IsIdentifier s i
AreIdentifiers s (i ∷ j ∷ rest) =
    (front : Bytes) × (back : Bytes) × (s ≡ front ++ b'.' ∷ back)
    × IsIdentifier front i
    × AreIdentifiers back (j ∷ rest)

-- The label of a version's pre-release.
abbrev pub IsLabel : Option Bytes → Option (List Identifier) → Type 0
IsLabel none none = Unit
IsLabel none (some ids) = ⊥
IsLabel (some s) none = ⊥
IsLabel (some s) (some ids) = AreIdentifiers s ids

-- A text of a version.
pub record IsVersion (s : Bytes) (v : Version) : Type 0 where
  pub parts : Shape s
  pub major_value : value 0 parts.major ≡ v.0.0
  pub minor_value : value 0 parts.minor ≡ v.0.1.0
  pub patch_value : value 0 parts.patch ≡ v.0.1.1
  pub labelled : IsLabel parts.label v.1

-- The numbers of a pre-release are in the range of ParseUint.
abbrev pub IsSmall : Identifier → Type 0
IsSmall (number n) = n < 2 ^ 64
IsSmall (word t) = Unit

abbrev pub AreSmall : Option (List Identifier) → Type 0
AreSmall none = Unit
AreSmall (some ids) = All IsSmall ids
