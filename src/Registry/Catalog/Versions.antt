-- ===== src/Registry/Catalog/Versions.antt =====
-- The versions of a package that Open accepts.
use mathlib.Core.List.{Perm, Nodup, Nodup-cons, Mem, mem-cons, not-mem-nil}
use mathlib.Core.List.Pairwise
use mathlib.Core.Logic.Or
use noqeri_registry.Prelude.{
  not-true, or-false, ◌≡◌, ◌≢◌, refl, true, false, List, [], ◌∷◌, some, arith, any, All, map,
}
use noqeri_registry.Prelude.Text.{Bytes, str_eq, str_eq_iff}
use noqeri_registry.Prelude.Fallible.{ok, >>-eq-ok}
use noqeri_registry.Prelude.Order.{Sign, above}
use noqeri_registry.Prelude.Sort.{sort, sort-All, sort-perm, sort-IsSorted, IsSorted}
use noqeri_registry.Registry.Pattern.{is_version}
use noqeri_registry.Registry.Semver.{semver_compare}
use noqeri_registry.Registry.Semver.Mirror.{semver_compare_asymmetric, semver_compare-above}
use noqeri_registry.Registry.Catalog.{
  Release, Package, invalid_version, unsafe_path, release_path, check_versions, is_newer,
  sort_versions,
}

-- A release of the package `id`: a version, filed under that package and version.
pub record IsRelease (id : Bytes) (r : Release) : Type 0 where
  pub version_good : is_version r.version ≡ true
  pub path_good : r.path ≡ release_path id r.version

abbrev pub version_of : Release → Bytes
version_of r = r.version

abbrev Unseen : List Bytes → Release → Type 0
Unseen seen r = any (λ s. str_eq s r.version) seen ≡ false

Unseen-apart :
    (v : Bytes) (seen : List Bytes) (r : Release) → Unseen (v ∷ seen) r → str_eq v r.version ≡ false
Unseen-apart v seen r h = ground arith

Unseen-weaken :
    (v : Bytes) (seen : List Bytes) (vs : List Release)
    → All (Unseen (v ∷ seen)) vs
    → All (Unseen seen) vs
Unseen-weaken v seen [] h = tt
Unseen-weaken v seen (r ∷ vs) h =
    ((or-false (str_eq v r.version) _ h.0).1, Unseen-weaken v seen vs h.1)

Unseen-not-mem :
    (v : Bytes) (seen : List Bytes) (vs : List Release)
    → All (Unseen (v ∷ seen)) vs
    → ¬ (Mem v (map version_of vs))
Unseen-not-mem v seen [] h m = not-mem-nil m
Unseen-not-mem v seen (r ∷ vs) h m =
    Or.elim (λ x y. absurd x) (mem-cons.0 m)
      (λ e. cc (Unseen-apart v seen r h.0, (str_eq_iff v r.version).1 e))
      (Unseen-not-mem v seen vs h.1)

pub check_versions_sound :
    (id : Bytes) (seen : List Bytes) (vs : List Release)
    → check_versions id seen vs ≡ ok tt
    → All (IsRelease id) vs × Nodup (map version_of vs) × All (Unseen seen) vs
unfolding check_versions
check_versions_sound id seen [] h = (tt, Pairwise.nil, tt)
check_versions_sound id seen (v ∷ vs) h =
    let (fresh, next) = >>-eq-ok _ (invalid_version id) _ h in
    let (placed, last) = >>-eq-ok _ (unsafe_path id v.version) _ next in
    let (good, unique, unseen) = check_versions_sound id (v.version ∷ seen) vs last in
    let (valid, new) = or-false _ _ fresh in
    (
      (
        record {
          version_good = not-true _ valid;
          path_good = (str_eq_iff _ _).0 (not-true _ placed);
        },
        good,
      ),
      Nodup-cons.1 (Unseen-not-mem v.version seen vs unseen, unique),
      (new, Unseen-weaken v.version seen vs unseen),
    )

-- Neighbours in falling order: semverCompare returns on them, and not with the later one above.
abbrev pub Falls : Release → List Release → Type 0
Falls r [] = Unit
Falls r (s ∷ rest) =
    (sign : Sign) × (semver_compare s.version r.version ≡ some sign) × (sign ≢ above)

abbrev pub IsFalling : List Release → Type 0
IsFalling [] = Unit
IsFalling (r ∷ rest) = Falls r rest × IsFalling rest

is_newer-compare :
    (v w : Release) (sign : Sign)
    → semver_compare v.version w.version ≡ some sign
    → is_newer v w ≡ elim sign [ above ↦ true | _ ↦ false ]
unfolding is_newer
is_newer-compare v w sign e = rw (e, is_newer) refl

sorted-IsFalling :
    (id : Bytes) (vs : List Release) → All (IsRelease id) vs → IsSorted is_newer vs → IsFalling vs
sorted-IsFalling id [] good h = tt
sorted-IsFalling id (r ∷ []) good h = (tt, tt)
sorted-IsFalling id (r ∷ s ∷ rest) good h =
    let (sign, e, _) =
      semver_compare_asymmetric s.version r.version good.1.0.version_good good.0.version_good in
    (
      (sign, e, λ up. cc (is_newer-compare s r sign e, h.0)),
      sorted-IsFalling id (s ∷ rest) good.1 h.1,
    )

is_newer-above :
    (v w : Release) → is_newer v w ≡ true → semver_compare v.version w.version ≡ some above
unfolding is_newer
is_newer-above v w h = ground arith

is_newer_asymmetric : (v w : Release) → is_newer v w ≡ true → is_newer w v ≡ false
unfolding is_newer
is_newer_asymmetric v w h =
    rw (semver_compare-above v.version w.version (is_newer-above v w h), is_newer) refl

-- The versions of an opened package: releases, in falling order, and the same as in the index.
pub sort_versions-IsFalling :
    (p : Package) (id : Bytes)
    → All (IsRelease id) p.versions
    → All (IsRelease id) (sort_versions p).versions × IsFalling (sort_versions p).versions
unfolding sort_versions
sort_versions-IsFalling p id h =
    let good = sort-All is_newer (IsRelease id) p.versions h in
    (
      good,
      sorted-IsFalling id (sort is_newer p.versions) good
          (sort-IsSorted is_newer is_newer_asymmetric p.versions),
    )

pub sort_versions-perm : (p : Package) → Perm (sort_versions p).versions p.versions
unfolding sort_versions
sort_versions-perm p = sort-perm is_newer p.versions
