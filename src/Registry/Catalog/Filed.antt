-- ===== src/Registry/Catalog/Filed.antt =====
-- The loop of Open over the packages of the index.
use mathlib.Core.List.{Nodup, Nodup-cons, Mem, mem-cons, not-mem-nil}
use mathlib.Core.List.Pairwise
use mathlib.Core.List.Perm
use mathlib.Core.Logic.Or
use noqeri_registry.Prelude.{
  both-true, ◌≡◌, ◌≢◌, ◌⊎◌, refl, sym, ap, subst, ◌∙◌, inl, inr, true, false, Bool-cases, List, [],
  ◌∷◌, Option, none, some, All, map,
}
use noqeri_registry.Prelude.Text.{Bytes, str_eq, str_eq_iff}
use noqeri_registry.Prelude.Fallible.{ok, >>-eq-ok, >>=-eq-ok, ok-injective}
use noqeri_registry.Registry.Pattern.{is_identity}
use noqeri_registry.Registry.Catalog.{
  Package, Packages, invalid_identity, duplicate_package, is_some, find, package_id, check_package,
  sort_versions, open_packages,
}
use noqeri_registry.Registry.Catalog.Versions.{
  IsRelease, IsFalling, version_of, check_versions_sound, sort_versions-IsFalling,
  sort_versions-perm,
}

-- A package in its place: found under its own id, with releases of its own, each version once.
pub record IsFiled (found : Packages) (p : Package) : Type 0 where
  pub namespace_good : is_identity p.namespace ≡ true
  pub name_good : is_identity p.name ≡ true
  pub filed : find (package_id p) found ≡ some p
  pub releases : All (IsRelease (package_id p)) p.versions
  pub falling : IsFalling p.versions
  pub unique : Nodup (map version_of p.versions)

sort_versions-id : (p : Package) → package_id (sort_versions p) ≡ package_id p
unfolding package_id sort_versions
sort_versions-id p = refl

-- What check_package says of a package.
record Checked (found : Packages) (p : Package) : Type 0 where
  namespace_good : is_identity p.namespace ≡ true
  name_good : is_identity p.name ≡ true
  new : find (package_id p) found ≡ none
  releases : All (IsRelease (package_id p)) p.versions
  unique : Nodup (map version_of p.versions)

none-of : (o : Option Package) → is_some o ≡ false → o ≡ none
none-of none h = refl
none-of (some p) h = cc

check_package-Checked :
    (found : Packages) (p : Package) → check_package found p ≡ ok tt → Checked found p
unfolding check_package
check_package-Checked found p h =
    let (identity, next) = >>-eq-ok _ (invalid_identity (package_id p)) _ h in
    let (fresh, last) = >>-eq-ok _ (duplicate_package (package_id p)) _ next in
    let (good, unique, _) = check_versions_sound (package_id p) [] p.versions last in
    record {
      namespace_good = (both-true _ _ identity).0;
      name_good = (both-true _ _ identity).1;
      new = none-of _ fresh;
      releases = good;
      unique = unique;
    }

sort_versions_unique :
    (p : Package)
    → Nodup (map version_of p.versions)
    → Nodup (map version_of (sort_versions p).versions)
sort_versions_unique p h = Perm.nodup (Perm.symm (Perm.map version_of (sort_versions-perm p))) h

find-cons_self : (id : Bytes) (p : Package) (found : Packages) → find id ((id, p) ∷ found) ≡ some p
unfolding find
find-cons_self id p found = rw ((str_eq_iff id id).1 refl) refl

find-cons-other :
    (id j : Bytes) (p : Package) (found : Packages)
    → id ≢ j
    → find id ((j, p) ∷ found) ≡ find id found
unfolding find
find-cons-other id j p found h = elim (Bool-cases (str_eq j id)) [
  | inl e ↦ absurd (h (sym ((str_eq_iff j id).0 e)))
  | inr e ↦ rw e refl
]

-- What the loop over the packages does to the map and the slice.
pub record Opened (found all_found : Packages) (ps opened : List Package) : Type 0 where
  pub resorted : opened ≡ map sort_versions ps
  pub filed : All (IsFiled all_found) opened
  pub kept : (id : Bytes) (p : Package) → find id found ≡ some p → find id all_found ≡ some p
  pub covered :
      (id : Bytes) (p : Package)
      → find id all_found ≡ some p
      → (find id found ≡ some p) ⊎ (Mem p opened × (id ≡ package_id p))
  pub fresh : All (λ q. find (package_id q) found ≡ none) opened
  pub distinct : Nodup (map package_id opened)

abbrev Fresh : Packages → Package → Type 0
Fresh found q = find (package_id q) found ≡ none

-- A package that is fresh behind a new entry has another id, and was fresh before.
Fresh-apart :
    (found : Packages) (p q : Package)
    → Fresh ((package_id p, sort_versions p) ∷ found) q
    → (package_id p ≢ package_id q) × Fresh found q
unfolding find
Fresh-apart found p q h = elim (Bool-cases (str_eq (package_id p) (package_id q))) [
  | inl e ↦ let absurdity : some (sort_versions p) ≡ none = rw e at h in absurd (cc absurdity)
  | inr e ↦ (λ eq. cc (e, (str_eq_iff (package_id p) (package_id q)).1 eq), rw e at h)
]

Fresh-weaken :
    (found : Packages) (p : Package) (opened : List Package)
    → All (Fresh ((package_id p, sort_versions p) ∷ found)) opened
    → All (Fresh found) opened
Fresh-weaken found p [] h = tt
Fresh-weaken found p (q ∷ opened) h =
    ((Fresh-apart found p q h.0).1, Fresh-weaken found p opened h.1)

Fresh-not-mem :
    (found : Packages) (p : Package) (opened : List Package)
    → All (Fresh ((package_id p, sort_versions p) ∷ found)) opened
    → ¬ (Mem (package_id p) (map package_id opened))
Fresh-not-mem found p [] h m = not-mem-nil m
Fresh-not-mem found p (q ∷ opened) h m =
    Or.elim (λ x y. absurd x) (mem-cons.0 m) (Fresh-apart found p q h.0).0
      (Fresh-not-mem found p opened h.1)

sort_versions-names :
    (p : Package) → ((sort_versions p).namespace ≡ p.namespace) × ((sort_versions p).name ≡ p.name)
unfolding sort_versions
sort_versions-names p = (refl, refl)

kept-cons :
    (found : Packages) (p : Package)
    → find (package_id p) found ≡ none
    → (j : Bytes) (q : Package) → find j found ≡ some q
    → find j ((package_id p, sort_versions p) ∷ found) ≡ some q
kept-cons found p new j q h =
    find-cons-other j (package_id p) (sort_versions p) found
      (λ e. cc (subst (λ i. find i found ≡ some q) e h, new))
    ∙ h

covered-cons :
    (found : Packages) (p : Package) (opened : List Package) (j : Bytes) (q : Package)
    → (find j ((package_id p, sort_versions p) ∷ found) ≡ some q)
      ⊎ (Mem q opened × (j ≡ package_id q))
    → (find j found ≡ some q) ⊎ (Mem q (sort_versions p ∷ opened) × (j ≡ package_id q))
unfolding find
covered-cons found p opened j q (inr (m, e)) = inr (mem-cons.1 (Or.inr m), e)
covered-cons found p opened j q (inl h) = elim (Bool-cases (str_eq (package_id p) j)) [
  | inl e ↦
      let same_package : sort_versions p ≡ q = cc (rw e at h) in
      inr (
        mem-cons.1 (Or.inl (sym same_package)),
        sym ((str_eq_iff (package_id p) j).0 e)
            ∙ sym (sort_versions-id p)
            ∙ ap package_id same_package,
      )
  | inr e ↦ inl (rw e at h)
]

Opened-cons :
    (found all_found : Packages) (p : Package) (ps opened : List Package)
    → Checked found p
    → Opened ((package_id p, sort_versions p) ∷ found) all_found ps opened
    → Opened found all_found (p ∷ ps) (sort_versions p ∷ opened)
Opened-cons found all_found p ps opened c o =
    let id = package_id p in
    let placed = o.kept id (sort_versions p) (find-cons_self id (sort_versions p) found) in
    let ordered = sort_versions-IsFalling p id c.releases in
    record {
      resorted = ap (◌∷◌ (sort_versions p)) o.resorted;
      filed = (
        record {
          namespace_good = rw (sort_versions-names p).0 c.namespace_good;
          name_good = rw (sort_versions-names p).1 c.name_good;
          filed = rw (sort_versions-id p) placed;
          releases = rw (sort_versions-id p) ordered.0;
          falling = ordered.1;
          unique = sort_versions_unique p c.unique;
        },
        o.filed,
      );
      kept = λ j q h. o.kept j q (kept-cons found p c.new j q h);
      covered = λ j q h. covered-cons found p opened j q (o.covered j q h);
      fresh = (rw (sort_versions-id p) c.new, Fresh-weaken found p opened o.fresh);
      distinct =
          Nodup-cons.1 (rw (sort_versions-id p) (Fresh-not-mem found p opened o.fresh), o.distinct);
    }

pub open_packages-Opened :
    (found : Packages) (ps opened : List Package) (all_found : Packages)
    → open_packages found ps ≡ ok (opened, all_found)
    → Opened found all_found ps opened
unfolding open_packages
open_packages-Opened found [] opened all_found h =
    let none_opened : opened ≡ [] = cc h in
    let same_map : found ≡ all_found = cc h in
    rw (none_opened, ← same_map)
      (record {
        resorted = refl;
        filed = tt;
        kept = λ j q k. k;
        covered = λ j q k. inl k;
        fresh = tt;
        distinct = Pairwise.nil;
      })
open_packages-Opened found (p ∷ ps) opened all_found h =
    let (_, checked, next) = >>=-eq-ok (check_package found p) _ h in
    let ((rest, reached), later, last) =
      >>=-eq-ok (open_packages ((package_id p, sort_versions p) ∷ found) ps) _ next in
    let behind =
      open_packages-Opened ((package_id p, sort_versions p) ∷ found) ps rest reached later in
    subst (λ (t : List Package × Packages). Opened found t.1 (p ∷ ps) t.0)
      (ok-injective (sort_versions p ∷ rest, reached) (opened, all_found) last)
      (Opened-cons found reached p ps rest (check_package-Checked found p checked) behind)
