-- ===== src/Registry/Semver.antt =====
-- semverCompare of internal/registry/catalog.go.
pub mod Shape
pub mod Version
pub mod Identifiers
pub mod Precedence
pub mod Mirror
use noqeri_registry.Prelude.{
  ℕ, zero, suc, Bool, List, [], ◌∷◌, Option, none, some, ltb, if◌then◌else◌,
}
use noqeri_registry.Prelude.Text.{Bytes, str_eq, cut, split}
use noqeri_registry.Prelude.Number.{parse_uint}
use noqeri_registry.Prelude.Order.{Sign, below, same, above, nat_order, list_order}
use noqeri_registry.Prelude.Numeral.{text_order}

-- `strings.SplitN(s, sep, 2)[0]`
unfoldable pub before : Bytes → ℕ → Bytes
unfolding cut
before s sep = elim (cut s sep) [ none ↦ s | some (front, rest) ↦ front ]

-- `strings.SplitN(s, "-", 2)`: one part or two
unfoldable pub split_release : Bytes → Bytes × Option Bytes
unfolding cut
split_release s = elim (cut s b'-') [ none ↦ (s, none) | some (core, pre) ↦ (core, some pre) ]

-- The local function `split`: a text without its build label, as its core and its pre-release.
unfoldable pub split_version : Bytes → Bytes × Option Bytes
unfolding before split_release
split_version s = split_release (before s b'+')

-- One round of the first loop: as numbers if both are, else by length and then as texts.
unfoldable pub compare_number : Bytes → Bytes → Sign
unfolding parse_uint text_order
compare_number a b = elim (parse_uint a) [
  | none ↦ text_order a b
  | some m ↦ elim (parse_uint b) [ none ↦ text_order a b | some n ↦ nat_order m n ]
]

-- The first loop over `av[i]` and `bv[i]`, the rounds left counted down; `none` is the panic of an
-- index out of range.
unfoldable pub compare_cores : ℕ → List Bytes → List Bytes → Option Sign
compare_cores zero xs ys = some same
compare_cores (suc n) [] ys = none
compare_cores (suc n) (a ∷ xs) [] = none
compare_cores (suc n) (a ∷ xs) (b ∷ ys) = elim (compare_number a b) [
  | below ↦ some below
  | same ↦ compare_cores n xs ys
  | above ↦ some above
]

-- Two pre-release identifiers that differ.
unfoldable pub compare_identifier : Bytes → Bytes → Sign
unfolding parse_uint list_order nat_order
compare_identifier a b = elim (parse_uint a) [
  | some m ↦ elim (parse_uint b) [ some n ↦ if ltb n m then above else below | none ↦ below ]
  | none ↦ elim (parse_uint b) [
    | some n ↦ above
    | none ↦ elim (list_order nat_order a b) [ above ↦ above | _ ↦ below ]
  ]
]

-- The second loop, and the lengths behind it.
unfoldable pub compare_identifiers : List Bytes → List Bytes → Sign
unfolding compare_identifier str_eq
compare_identifiers [] [] = same
compare_identifiers [] (b ∷ ys) = below
compare_identifiers (a ∷ xs) [] = above
compare_identifiers (a ∷ xs) (b ∷ ys) =
    if str_eq a b then compare_identifiers xs ys else compare_identifier a b

unfoldable pub compare_releases : Option Bytes → Option Bytes → Sign
unfolding compare_identifiers split
compare_releases none none = same
compare_releases none (some b) = above
compare_releases (some a) none = below
compare_releases (some a) (some b) = compare_identifiers (split a b'.') (split b b'.')

-- The pre-releases count where the cores are the same.
abbrev pub or_releases : Option Sign → Sign → Option Sign
or_releases none r = none
or_releases (some below) r = some below
or_releases (some same) r = some r
or_releases (some above) r = some above

-- `none` is a panic.
unfoldable pub semver_compare : Bytes → Bytes → Option Sign
semver_compare a b =
    let (core_a, pre_a) = split_version a in
    let (core_b, pre_b) = split_version b in
    or_releases (compare_cores 3 (split core_a b'.') (split core_b b'.'))
      (compare_releases pre_a pre_b)
