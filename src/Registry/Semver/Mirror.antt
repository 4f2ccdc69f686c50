-- ===== src/Registry/Semver/Mirror.antt =====
-- semverCompare with its arguments exchanged.
use noqeri_registry.Prelude.{
  ℕ, zero, suc, ◌≡◌, refl, List, [], ◌∷◌, Option, none, some, arith, ◌∙◌, ap, inl, inr, true,
  length, Option-cases,
}
use noqeri_registry.Prelude.Text.{Bytes, str_eq_iff, split}
use noqeri_registry.Prelude.Number.{parse_uint}
use noqeri_registry.Prelude.Order.{
  Sign, below, same, above, flip, IsOrder, nat_order, nat_order-IsOrder, list_order,
  list_order-IsOrder,
}
use noqeri_registry.Prelude.Numeral.{text_order}
use noqeri_registry.Registry.Pattern.{is_version}
use noqeri_registry.Registry.Semver.{
  split_version, compare_number, compare_cores, compare_identifier, compare_identifiers,
  compare_releases, or_releases, semver_compare,
}
use noqeri_registry.Registry.Semver.Shape.{compare_shapes, semver_compare-Shape, is_version-Shape}

texts : IsOrder (list_order nat_order)
texts = list_order-IsOrder nat_order nat_order-IsOrder

text_order-mirrored : (a b : Bytes) → text_order b a ≡ flip (text_order a b)
unfolding text_order
text_order-mirrored a b =
    ground (arith, nat_order-IsOrder.mirrored (length a) (length b), texts.mirrored a b)

compare_number-mirrored : (a b : Bytes) → compare_number b a ≡ flip (compare_number a b)
unfolding compare_number
compare_number-mirrored a b = elim (Option-cases (parse_uint a)) [
  | inl bad ↦ ground (arith, text_order-mirrored a b)
  | inr (m, e) ↦ elim (Option-cases (parse_uint b)) [
    | inl bad ↦ ground (arith, text_order-mirrored a b)
    | inr (n, e') ↦ ground (arith, nat_order-IsOrder.mirrored m n)
  ]
]

flipped : Option Sign → Option Sign
flipped none = none
flipped (some s) = some (flip s)

compare_cores-mirrored :
    (n : ℕ) (xs ys : List Bytes) → compare_cores n ys xs ≡ flipped (compare_cores n xs ys)
unfolding compare_cores flipped
compare_cores-mirrored zero xs ys = refl
compare_cores-mirrored (suc n) [] [] = refl
compare_cores-mirrored (suc n) [] (b ∷ ys) = refl
compare_cores-mirrored (suc n) (a ∷ xs) [] = refl
compare_cores-mirrored (suc n) (a ∷ xs) (b ∷ ys) =
    ground (arith, compare_number-mirrored a b, compare_cores-mirrored n xs ys)

compare_identifier-above :
    (a b : Bytes) → compare_identifier a b ≡ above → compare_identifier b a ≡ below
unfolding compare_identifier
compare_identifier-above a b h =
    ground (arith, (list_order-IsOrder nat_order nat_order-IsOrder).mirrored a b)

compare_identifiers-above :
    (xs ys : List Bytes) → compare_identifiers xs ys ≡ above → compare_identifiers ys xs ≡ below
unfolding compare_identifiers
compare_identifiers-above [] [] h = cc
compare_identifiers-above [] (b ∷ ys) h = cc
compare_identifiers-above (a ∷ xs) [] h = ground arith
compare_identifiers-above (a ∷ xs) (b ∷ ys) h = ground (
  arith,
  str_eq_iff a b,
  str_eq_iff b a,
  compare_identifier-above a b,
  compare_identifiers-above xs ys,
)

compare_releases-above :
    (s t : Option Bytes) → compare_releases s t ≡ above → compare_releases t s ≡ below
unfolding compare_releases
compare_releases-above none none h = cc
compare_releases-above none (some t) h = ground arith
compare_releases-above (some s) none h = cc
compare_releases-above (some s) (some t) h =
    compare_identifiers-above (split s b'.') (split t b'.') h

or_releases-above :
    (core : Option Sign) (r r' : Sign)
    → (r ≡ above → r' ≡ below)
    → or_releases core r ≡ some above
    → or_releases (flipped core) r' ≡ some below
unfolding flipped
or_releases-above none r r' f h = cc
or_releases-above (some below) r r' f h = cc
or_releases-above (some same) r r' f h = ap some (f (cc h))
or_releases-above (some above) r r' f h = refl

pub semver_compare-above :
    (a b : Bytes) → semver_compare a b ≡ some above → semver_compare b a ≡ some below
unfolding semver_compare
semver_compare-above a b h =
    let xs = split (split_version a).0 b'.' in
    let ys = split (split_version b).0 b'.' in
    rw (compare_cores-mirrored 3 xs ys) (
      or_releases-above (compare_cores 3 xs ys)
        (compare_releases (split_version a).1 (split_version b).1)
        (compare_releases (split_version b).1 (split_version a).1)
        (compare_releases-above (split_version a).1 (split_version b).1) h)

-- On any two texts that versionPattern accepts semverCompare returns, and where it puts the first
-- above the second, it puts the second below the first.
pub semver_compare_asymmetric :
    (a b : Bytes)
    → is_version a ≡ true
    → is_version b ≡ true
    → (sign : Sign) × (semver_compare a b ≡ some sign)
      × (sign ≡ above → semver_compare b a ≡ some below)
semver_compare_asymmetric a b h k =
    let s = is_version-Shape a h in
    let t = is_version-Shape b k in
    (
      compare_shapes s t,
      semver_compare-Shape a b s t,
      λ e. semver_compare-above a b (semver_compare-Shape a b s t ∙ ap some e),
    )
