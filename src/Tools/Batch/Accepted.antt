-- ===== src/Tools/Batch/Accepted.antt =====
-- What Open says of an index that a batch of releases was added to.
use noqeri_registry.Prelude.{
  ◌≡◌, refl, sym, ap, ◌∙◌, true, false, not, ◌||◌, Bool-cases, &&_iff, inl, inr, List, [], ◌∷◌,
  ◌++◌, map, any, or-false,
}
use noqeri_registry.Prelude.Text.{Bytes, codes, str_eq, str_eq_iff}
use noqeri_registry.Prelude.Fallible.{ok, >>=-eq-ok, >>-eq-ok, >>=-ok, >>-ok}
use noqeri_registry.Prelude.Regex.{matches}
use noqeri_registry.Registry.Pattern.{is_identity, is_version}
use noqeri_registry.Registry.Catalog.{
  Release, Package, Packages, invalid_version, unsafe_path, invalid_identity, duplicate_package,
  is_some, find, package_id, release_path, check_versions, sort_versions, check_package,
  open_packages,
}
use noqeri_registry.Tools.Batch.{new_version, is_package, has_version, add_version}

version_good : is_version (codes "0.1.1") ≡ true
unfolding is_version codes matches
version_good = refl

pub new_version-version : (n : Bytes) → (new_version n).version ≡ codes "0.1.1"
unfolding new_version codes
new_version-version n = refl

-- The new version at the end of versions that Open accepts.
check_versions-append :
    (n id : Bytes) (seen : List Bytes) (vs : List Release)
    → release_path id (codes "0.1.1") ≡ (new_version n).path
    → any (λ s. str_eq s (codes "0.1.1")) seen ≡ false
    → has_version vs ≡ false
    → check_versions id seen vs ≡ ok tt
    → check_versions id seen (vs ++ new_version n ∷ []) ≡ ok tt
unfolding check_versions has_version
check_versions-append n id seen [] place fresh h k =
    >>-ok
      (not (is_version (new_version n).version) || any (λ s. str_eq s (new_version n).version) seen)
      (invalid_version id) _
      (ap (λ s. not (is_version s) || any (λ t. str_eq t s) seen) (new_version-version n)
        ∙ rw (version_good, fresh) refl)
      (>>-ok (not (str_eq (new_version n).path (release_path id (new_version n).version)))
        (unsafe_path id (new_version n).version) _
        (ap (λ s. not (str_eq (new_version n).path (release_path id s))) (new_version-version n)
          ∙ ap not
              ((str_eq_iff (new_version n).path (release_path id (codes "0.1.1"))).1 (sym place)))
        refl)
check_versions-append n id seen (v ∷ vs) place fresh h k =
    let (other, none) = or-false (str_eq v.version (codes "0.1.1")) (has_version vs) h in
    let (good, k0) =
      >>-eq-ok (not (is_version v.version) || any (λ s. str_eq s v.version) seen)
        (invalid_version id) _ k in
    let (safe, k1) =
      >>-eq-ok (not (str_eq v.path (release_path id v.version))) (unsafe_path id v.version) _ k0 in
    >>-ok _ (invalid_version id) _ good (
      >>-ok _ (unsafe_path id v.version) _ safe
        (check_versions-append n id (v.version ∷ seen) vs place (rw (other, fresh) refl) none k1))

add_version-id : (n : Bytes) (p : Package) → package_id (add_version n p) ≡ package_id p
unfolding package_id add_version
add_version-id n p = elim (Bool-cases (is_package n p)) [
  | inr other ↦ rw other refl
  | inl this ↦ elim (Bool-cases (has_version p.versions)) [
    | inl old ↦ rw (this, old) refl
    | inr new ↦ rw (this, new) refl
  ]
]

package_place :
    (n : Bytes) (p : Package)
    → is_package n p ≡ true
    → release_path (package_id p) (codes "0.1.1") ≡ (new_version n).path
unfolding is_package release_path package_id new_version codes
package_place n p h =
    let (name, space) = (&&_iff _ _).0 h in
    rw ((str_eq_iff p.name n).0 name, (str_eq_iff p.namespace (codes "noqeri")).0 space) refl

check_versions-add :
    (n : Bytes) (p : Package)
    → check_versions (package_id p) [] p.versions ≡ ok tt
    → check_versions (package_id p) [] (add_version n p).versions ≡ ok tt
unfolding add_version
check_versions-add n p h = elim (Bool-cases (is_package n p)) [
  | inr other ↦ rw other h
  | inl this ↦ elim (Bool-cases (has_version p.versions)) [
    | inl old ↦ rw (this, old) h
    | inr new ↦
        rw (this, new)
          (check_versions-append n (package_id p) [] p.versions (package_place n p this) refl new h)
  ]
]

-- Two maps with the same ids.
abbrev pub SameIds : Packages → Packages → Type 0
SameIds found found' = (id : Bytes) → is_some (find id found') ≡ is_some (find id found)

SameIds-cons :
    (found found' : Packages) (i j : Bytes) (p q : Package)
    → i ≡ j
    → SameIds found found'
    → SameIds ((i, p) ∷ found) ((j, q) ∷ found')
unfolding find
SameIds-cons found found' i j p q e same id = elim (Bool-cases (str_eq i id)) [
  | inl this ↦ rw (sym e, this) refl
  | inr other ↦ rw (sym e, other) (same id)
]

pub add_version-names :
    (n : Bytes) (p : Package)
    → ((add_version n p).namespace ≡ p.namespace) × ((add_version n p).name ≡ p.name)
unfolding add_version
add_version-names n p = elim (Bool-cases (is_package n p)) [
  | inr other ↦ rw other (refl, refl)
  | inl this ↦ elim (Bool-cases (has_version p.versions)) [
    | inl old ↦ rw (this, old) (refl, refl)
    | inr new ↦ rw (this, new) (refl, refl)
  ]
]

check_package-add :
    (n : Bytes) (found found' : Packages) (p : Package)
    → SameIds found found'
    → check_package found p ≡ ok tt
    → check_package found' (add_version n p) ≡ ok tt
unfolding check_package
check_package-add n found found' p same h =
    let (space, name) = add_version-names n p in
    let (named, h0) =
      >>-eq-ok (not (is_identity p.namespace) || not (is_identity p.name))
        (invalid_identity (package_id p)) _ h in
    let (fresh, h1) =
      >>-eq-ok (is_some (find (package_id p) found)) (duplicate_package (package_id p)) _ h0 in
    rw (add_version-id n p, space, name)
      (>>-ok _ (invalid_identity (package_id p)) _ named (
        >>-ok _ (duplicate_package (package_id p)) _ (same (package_id p) ∙ fresh)
          (check_versions-add n p h1)))

pub open_packages-add :
    (n : Bytes) (found found' : Packages) (ps : List Package) (r : List Package × Packages)
    → SameIds found found'
    → open_packages found ps ≡ ok r
    → (r' : List Package × Packages) × (open_packages found' (map (add_version n) ps) ≡ ok r')
unfolding open_packages
open_packages-add n found found' [] r same h = (([], found'), refl)
open_packages-add n found found' (p ∷ ps) r same h =
    let q = add_version n p in
    let (_, h0, k0) = >>=-eq-ok (check_package found p) _ h in
    let (r1, h1, _) = >>=-eq-ok (open_packages ((package_id p, sort_versions p) ∷ found) ps) _ k0 in
    let (r2, e) =
      open_packages-add n ((package_id p, sort_versions p) ∷ found)
        ((package_id q, sort_versions q) ∷ found') ps r1
        (SameIds-cons found found' (package_id p) (package_id q) (sort_versions p) (sort_versions q)
          (sym (add_version-id n p)) same)
        h1 in
    (
      (sort_versions q ∷ r2.0, r2.1),
      >>=-ok (check_package found' q) _ tt (check_package-add n found found' p same h0) (
          >>=-ok (open_packages ((package_id q, sort_versions q) ∷ found') (map (add_version n) ps))
            _ r2 e refl),
    )
