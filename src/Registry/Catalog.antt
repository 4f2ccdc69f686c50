-- ===== src/Registry/Catalog.antt =====
-- Open of internal/registry/catalog.go. The file system and the JSON reader are arguments.
pub mod Versions
pub mod Filed
pub mod Opened
use noqeri_registry.Prelude.{
  ℕ, ◌*◌, ◌^◌, Bool, true, false, not, ◌||◌, List, [], ◌∷◌, ◌++◌, Option, none, some, length, ltb,
  if◌then◌else◌, any,
}
use noqeri_registry.Prelude.Text.{Bytes, codes, str_eq}
use noqeri_registry.Prelude.Fallible.{Fallible, ok, err, ◌>>=◌, ◌>>◌, refuse}
use noqeri_registry.Prelude.Order.{Sign, below, same, above, nat_order, list_order}
use noqeri_registry.Prelude.Sort.{sort}
use noqeri_registry.Registry.Pattern.{is_identity, is_version}
use noqeri_registry.Registry.Semver.{semver_compare}

pub record Release : Type 0 where
  pub version : Bytes
  pub path : Bytes
  pub yanked : Bool
  pub experimental : Bool
  pub quality : Bytes
  pub evidence : Bytes
  pub migration_from : Bytes
  pub replaced_by : Bytes

pub record Package : Type 0 where
  pub namespace : Bytes
  pub name : Bytes
  pub description : Bytes
  pub versions : List Release

pub record Index : Type 0 where
  pub protocol : Bytes
  pub package_format : Bytes
  pub packages : List Package

-- A Go map from texts, the latest assignment first.
abbrev pub Packages : Type 0
Packages = List (Bytes × Package)

pub record Catalog : Type 0 where
  pub root : Bytes
  pub index : Index
  pub package_by_id : Packages

-- The errors that Open returns.
pub data OpenError : Type 0 where
  absolute_path_failed index_unreadable index_too_large index_invalid : OpenError
  unsupported_format : OpenError
  invalid_identity duplicate_package invalid_version : Bytes → OpenError
  unsafe_path : Bytes → Bytes → OpenError

abbrev pub Opening {ℓ} : Type ℓ → Type ℓ
Opening = Fallible OpenError

abbrev pub or_error {ℓ} : {A : Type ℓ} → Option A → OpenError → Opening A
or_error none e = err e
or_error (some a) e = ok a

abbrev pub is_some {ℓ} : {A : Type ℓ} → Option A → Bool
is_some none = false
is_some (some a) = true

-- `m[id]`
unfoldable pub find : Bytes → Packages → Option Package
unfolding str_eq
find id [] = none
find id ((j, p) ∷ m) = if str_eq j id then some p else find id m

-- `p.Namespace + "/" + p.Name`
unfoldable pub package_id : Package → Bytes
package_id p = p.namespace ++ b'/' ∷ p.name

-- `"packages/" + id + "/" + version`
unfoldable pub release_path : Bytes → Bytes → Bytes
unfolding codes
release_path id version = codes "packages/" ++ (id ++ b'/' ∷ version)

-- The loop over the versions of a package; `seen` holds the versions before.
unfoldable pub check_versions : Bytes → List Bytes → List Release → Opening (Unit {0})
check_versions id seen [] = ok tt
check_versions id seen (v ∷ vs) = do
  refuse (not (is_version v.version) || any (λ s. str_eq s v.version) seen) (invalid_version id)
  refuse (not (str_eq v.path (release_path id v.version))) (unsafe_path id v.version)
  check_versions id (v.version ∷ seen) vs

-- `semverCompare(...) > 0`, of versions on which semverCompare does not panic
unfoldable pub is_newer : Release → Release → Bool
is_newer v w = elim (semver_compare v.version w.version) [
  | none ↦ false
  | some sign ↦ elim sign [ above ↦ true | _ ↦ false ]
]

-- `sort.SliceStable`, by insertion: on more than twenty versions the Go library merges sorted blocks.
-- The two can differ only where semverCompare does not order the versions.
unfoldable pub sort_versions : Package → Package
sort_versions p = record p { versions = sort is_newer p.versions }

unfoldable pub check_package : Packages → Package → Opening (Unit {0})
check_package found p = do
  refuse (not (is_identity p.namespace) || not (is_identity p.name))
      (invalid_identity (package_id p))
  refuse (is_some (find (package_id p) found)) (duplicate_package (package_id p))
  check_versions (package_id p) [] p.versions

-- The loop over the packages: the slice with each package's versions in order, and the map.
unfoldable pub open_packages : Packages → List Package → Opening (List Package × Packages)
open_packages found [] = ok ([], found)
open_packages found (p ∷ ps) = do
  check_package found p
  (rest, all_found) ← open_packages ((package_id p, sort_versions p) ∷ found) ps
  ok (sort_versions p ∷ rest, all_found)

-- `idx.Packages[i].Namespace+"/"+idx.Packages[i].Name < ...`
unfoldable pub has_smaller_id : Package → Package → Bool
has_smaller_id p q = elim (list_order nat_order (package_id p) (package_id q)) [
  | below ↦ true
  | _ ↦ false
]

-- `filepath.Join(dir, rel)` of a clean absolute directory and a clean relative path
unfoldable pub join : Bytes → Bytes → Bytes
unfolding str_eq codes
join dir rel = if str_eq dir (codes "/") then dir ++ rel else dir ++ b'/' ∷ rel

unfoldable pub catalog_of : Bytes → Index → Opening Catalog
catalog_of root index = do
  refuse
      (not (str_eq index.protocol (codes "v1"))
        || not (str_eq index.package_format (codes "nqpkg-1")))
      unsupported_format
  (opened, found) ← open_packages [] index.packages
  ok (record {
    root = root;
    index = record index { packages = sort has_smaller_id opened };
    package_by_id = found;
  })

-- What Open asks of the system: `filepath.Abs`, `os.ReadFile` and `json.Unmarshal`.
pub record Storage : Type 0 where
  pub absolute : Bytes → Option Bytes
  pub read_file : Bytes → Option Bytes
  pub unmarshal_index : Bytes → Option Index

unfoldable pub open_catalog : Storage → Bytes → Opening Catalog
open_catalog storage root = do
  abs ← or_error (storage.absolute root) absolute_path_failed
  input ← or_error (storage.read_file (join abs (codes "registry/index.json"))) index_unreadable
  refuse (ltb (4 * 2 ^ 20) (length input)) index_too_large
  index ← or_error (storage.unmarshal_index input) index_invalid
  catalog_of abs index
