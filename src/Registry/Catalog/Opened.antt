-- ===== src/Registry/Catalog/Opened.antt =====
-- What a catalog holds that Open returned.
use mathlib.Core.List.{Perm, Nodup, Nodup-cons, Mem, mem-cons}
use mathlib.Core.List.Perm
use mathlib.Core.Logic.Or
use noqeri_registry.Prelude.{
  both-true, ◌^◌, ◌*◌, ◌≤◌, ◌≡◌, ◌≢◌, refl, sym, ap, subst, ◌∙◌, inl, inr, true, false, List, [],
  ◌∷◌, Option, none, some, arith, All, map, length, ltb, ltb-false,
}
use noqeri_registry.Prelude.Text.{Bytes, codes, str_eq_iff}
use noqeri_registry.Prelude.Fallible.{ok, >>-eq-ok, >>=-eq-ok, ok-injective}
use noqeri_registry.Prelude.Order.{
  below, same, IsOrder, nat_order, nat_order-IsOrder, list_order, list_order-IsOrder,
}
use noqeri_registry.Prelude.Sort.{sort, sort-All, sort-perm, sort-IsSorted, IsSorted}
use noqeri_registry.Registry.Catalog.{
  Package, Index, Catalog, Storage, OpenError, index_too_large, unsupported_format,
  absolute_path_failed, index_unreadable, index_invalid, or_error, find, package_id, sort_versions,
  open_packages, has_smaller_id, join, catalog_of, open_catalog,
}
use noqeri_registry.Registry.Catalog.Versions.{sort_versions-perm}
use noqeri_registry.Registry.Catalog.Filed.{IsFiled, open_packages-Opened}

-- Neighbours in rising order of their ids.
abbrev pub Rises : Package → List Package → Type 0
Rises p [] = Unit
Rises p (q ∷ rest) = list_order nat_order (package_id p) (package_id q) ≡ below

abbrev pub IsRising : List Package → Type 0
IsRising [] = Unit
IsRising (p ∷ rest) = Rises p rest × IsRising rest

id-IsOrder : IsOrder (list_order nat_order)
id-IsOrder = list_order-IsOrder nat_order nat_order-IsOrder

has_smaller_id_asymmetric : (p q : Package) → has_smaller_id p q ≡ true → has_smaller_id q p ≡ false
unfolding has_smaller_id
has_smaller_id_asymmetric p q h = ground (arith, id-IsOrder.mirrored (package_id p) (package_id q))

rises :
    (p q : Package) → has_smaller_id q p ≡ false → package_id p ≢ package_id q → Rises p (q ∷ [])
unfolding has_smaller_id
rises p q h apart = ground (
  arith,
  id-IsOrder.mirrored (package_id p) (package_id q),
  λ (e : list_order nat_order (package_id p) (package_id q) ≡ same). apart (id-IsOrder.exact _ _ e),
)

sorted-IsRising :
    (ps : List Package) → IsSorted has_smaller_id ps → Nodup (map package_id ps) → IsRising ps
sorted-IsRising [] h n = tt
sorted-IsRising (p ∷ []) h n = (tt, tt)
sorted-IsRising (p ∷ q ∷ rest) h n =
    let (absent, unique) = Nodup-cons.0 n in
    (rises p q h.0 (λ e. absent (mem-cons.1 (Or.inl e))), sorted-IsRising (q ∷ rest) h.1 unique)

-- What a catalog is to hold of the index that was read.
pub record IsCatalog (index : Index) (c : Catalog) : Type 0 where
  pub protocol : index.protocol ≡ codes "v1"
  pub package_format : index.package_format ≡ codes "nqpkg-1"
  pub complete : Perm c.index.packages (map sort_versions index.packages)
  pub same_versions : All (λ p. Perm (sort_versions p).versions p.versions) index.packages
  pub rising : IsRising c.index.packages
  pub filed : All (IsFiled c.package_by_id) c.index.packages
  pub covered :
      (id : Bytes) (p : Package)
      → find id c.package_by_id ≡ some p
      → Mem p c.index.packages × (id ≡ package_id p)

same_versions_lem : (ps : List Package) → All (λ p. Perm (sort_versions p).versions p.versions) ps
same_versions_lem [] = tt
same_versions_lem (p ∷ ps) = (sort_versions-perm p, same_versions_lem ps)

nothing-found : (id : Bytes) (p : Package) → find id [] ≡ some p → ⊥
unfolding find
nothing-found id p h = cc

catalog_of-IsCatalog :
    (root : Bytes) (index : Index) (c : Catalog)
    → catalog_of root index ≡ ok c
    → (c.root ≡ root) × IsCatalog index c
unfolding catalog_of
catalog_of-IsCatalog root index c h =
    let (format, next) = >>-eq-ok _ unsupported_format _ h in
    let ((opened, found), e, last) = >>=-eq-ok (open_packages [] index.packages) _ next in
    let o = open_packages-Opened [] index.packages opened found e in
    let sorted = sort has_smaller_id opened in
    let perm = sort-perm has_smaller_id opened in
    let catalog : Catalog = record {
      root = root;
      index = record index { packages = sorted };
      package_by_id = found;
    } in
    let good : IsCatalog index catalog = record {
      protocol = (str_eq_iff _ _).0 (both-true _ _ format).0;
      package_format = (str_eq_iff _ _).0 (both-true _ _ format).1;
      complete = subst (Perm sorted) o.resorted perm;
      same_versions = same_versions_lem index.packages;
      rising =
          sorted-IsRising sorted (sort-IsSorted has_smaller_id has_smaller_id_asymmetric opened)
            (Perm.nodup (Perm.map package_id (Perm.symm perm)) o.distinct);
      filed = sort-All has_smaller_id (IsFiled found) opened o.filed;
      covered = λ id p k. elim (o.covered id p k) [
        | inl old ↦ absurd (nothing-found id p old)
        | inr (m, same_id) ↦ ((Perm.mem_iff perm).1 m, same_id)
      ];
    } in
    subst (λ (d : Catalog). (d.root ≡ root) × IsCatalog index d) (ok-injective catalog c last)
      (refl, good)

or_error-eq-ok {ℓ} :
    {A : Type ℓ} (o : Option A) (e : OpenError) (a : A) → or_error o e ≡ ok a → o ≡ some a
or_error-eq-ok none e a h = cc
or_error-eq-ok (some b) e a h = ap some (ok-injective b a h)

-- Where a catalog comes from.
pub record IsReading (storage : Storage) (root : Bytes) (index : Index) (c : Catalog) : Type 0 where
  pub input : Bytes
  pub located : storage.absolute root ≡ some c.root
  pub read : storage.read_file (join c.root (codes "registry/index.json")) ≡ some input
  pub bounded : length input ≤ 4 * 2 ^ 20
  pub parsed : storage.unmarshal_index input ≡ some index

-- A catalog that Open returns was read from registry/index.json under the absolute root, at most
-- 4 MiB, of protocol v1 and format nqpkg-1. It has the packages of the index, in rising order of
-- their ids, each with its own versions in falling order; the map finds each package under its
-- own id and nothing else. Namespaces and names are identities, and each release is a version
-- that occurs once in its package, with the path that belongs to it.
pub open_catalog-IsCatalog :
    (storage : Storage) (root : Bytes) (c : Catalog)
    → open_catalog storage root ≡ ok c
    → (index : Index) × IsReading storage root index c × IsCatalog index c
unfolding open_catalog
open_catalog-IsCatalog storage root c h =
    let (abs, ha, h1) = >>=-eq-ok (or_error (storage.absolute root) absolute_path_failed) _ h in
    let file = storage.read_file (join abs (codes "registry/index.json")) in
    let (input, hi, h2) = >>=-eq-ok (or_error file index_unreadable) _ h1 in
    let (small, h3) = >>-eq-ok (ltb (4 * 2 ^ 20) (length input)) index_too_large _ h2 in
    let (index, hj, h4) = >>=-eq-ok (or_error (storage.unmarshal_index input) index_invalid) _ h3 in
    let (same_root, good) = catalog_of-IsCatalog abs index c h4 in
    (
      index,
      record {
        input = input;
        located = or_error-eq-ok _ absolute_path_failed abs ha ∙ ap some (sym same_root);
        read =
            ap (λ (r : Bytes). storage.read_file (join r (codes "registry/index.json"))) same_root
            ∙ or_error-eq-ok _ index_unreadable input hi;
        bounded = ltb-false (4 * 2 ^ 20) (length input) small;
        parsed = or_error-eq-ok _ index_invalid index hj;
      },
      good,
    )
