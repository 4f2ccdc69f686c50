-- ===== src/Tools/Tests/Generators.antt =====
-- A release that the generators work on.
use noqeri_registry.Prelude.Strict.{IsChain}
use noqeri_registry.Registry.Tests.Fixtures.{old_release, demo, index_of}
use noqeri_registry.Registry.Catalog.{
  Index, Catalog, Storage, open_catalog, catalog_of, open_packages, check_package, find,
  check_versions, release_path, package_id, sort_versions,
}
use noqeri_registry.Registry.Pattern.{is_identity, is_version}
use noqeri_registry.Prelude.Regex.{matches}
use noqeri_registry.Prelude.Sort.{sort}
use noqeri_registry.Tools.Batch.Texts.{Spec}
use noqeri_registry.Tools.Batch.{
  Batch, BatchError, Disk, release_batch, releasebatch2, releasebatch3, wrong_count,
}
use noqeri_registry.Tools.Batch.Released.{is_released}
use noqeri_registry.Tools.Batch.Reopened.{release_batch-IsReleased}
use noqeri_registry.Prelude.{
  All, arith, map, Bool, any, ◌+◌, ◌≡◌, refl, true, false, [], ◌∷◌, ◌++◌, some,
}
use noqeri_registry.Prelude.Text.{
  Bytes, Unicode, codes, str_eq, split, has_prefix, has_suffix, contains,
}
use noqeri_registry.Prelude.Fallible.{Fallible, ok, err, >>=-ok}
use noqeri_registry.Registry.Catalog.{join}
use noqeri_registry.Tools.Names.{names}
use noqeri_registry.Tools.Names.Listing.{Smaller, is_listed, declares, names-IsListing}
use noqeri_registry.Tools.Upgrade.Texts.{Upgrade, is_enhanced, marker, addition}
use noqeri_registry.Tools.Upgrade.{
  Files, Work, Working, read, manifest_entry, upgrade_release, source_path, upgrade_versions,
  upgrade_packages, out_of_date,
}
use noqeri_registry.Tools.Upgrade.Settled.{IsApart, upgrade_release-again}
use noqeri_registry.Tools.Upgrade.Checked.{IsUntouched, upgrade_packages-IsUntouched}

abbrev ascii : Unicode
ascii = record { lower = λ s. s; upper = λ s. s; fold_eq = str_eq; trim = λ s. s }

abbrev quote : Bytes → Bytes
quote s = b'"' ∷ (s ++ b'"' ∷ [])

abbrev denied : Bytes → Bool
denied path = false

abbrev dir : Bytes
dir = codes "/r/demo/1.0.0"

abbrev manifest : Bytes
manifest = codes "package { entry: \"src/a.noqeri\" }"

abbrev rule : Upgrade
rule = record {
  about = codes "More.";
  source = codes " export function g() ";
  test = codes "    f()";
}

abbrev before : Work
before = record {
  files =
      (codes "/r/demo/1.0.0/package.noqeri", manifest)
      ∷ (codes "/r/demo/1.0.0/src/a.noqeri", codes "export function f()\n")
      ∷ [];
  releases = 0;
  edited = 0;
  deepened = 0;
}

abbrev work_of : Working → Work
work_of (ok w) = w
work_of (err e) = before

unfoldable later : Work
unfolding upgrade_release codes
later =
    work_of (
      upgrade_release ascii quote denied false (some rule) (codes "demo", codes "1.0.0") dir before)

upgrade_tests :
    (upgrade_release ascii quote denied false (some rule) (codes "demo", codes "1.0.0") dir before
      ≡ ok later)
    × (later.edited ≡ 5)
    × (later.deepened ≡ 1)
    × (upgrade_release ascii quote denied true (some rule) (codes "demo", codes "1.0.0") dir before
        ≡ err (out_of_date (codes "/r/demo/1.0.0/src/a.noqeri")))
unfolding upgrade_release later codes contains is_enhanced marker addition
upgrade_tests = (refl, refl, refl, refl)

release_held :
    (read (join dir (codes "package.noqeri")) before.files ≡ some manifest)
    × (manifest_entry ascii manifest ≡ ok (codes "src/a.noqeri"))
    × IsApart dir (codes "src/a.noqeri")
unfolding read join manifest_entry source_path codes str_eq contains has_prefix has_suffix
release_held = (refl, refl, (refl, (refl, (refl, (refl, (refl, tt))))))

upgrade_release-again_example :
    upgrade_release ascii quote denied true (some rule) (codes "demo", codes "1.0.0") dir later
    ≡ ok (record later { releases = later.releases + 1 })
upgrade_release-again_example =
    upgrade_release-again ascii quote denied (some rule) (codes "demo", codes "1.0.0") dir manifest
      (codes "src/a.noqeri") before later release_held.0 release_held.1 release_held.2
      upgrade_tests.0

checked_run :
    upgrade_packages ascii quote denied true
      (λ name. some rule)
      (codes "/r")
      ((codes "demo", codes "1.0.0" ∷ []) ∷ [])
      later
    ≡ ok (record later { releases = later.releases + 1 })
unfolding upgrade_packages upgrade_versions join codes str_eq
checked_run = >>=-ok _ _ _ (>>=-ok _ _ _ upgrade_release-again_example refl) refl

upgrade_packages-IsUntouched_example :
    IsUntouched later (record later { releases = later.releases + 1 })
upgrade_packages-IsUntouched_example =
    upgrade_packages-IsUntouched ascii quote denied (λ name. some rule) (codes "/r")
      ((codes "demo", codes "1.0.0" ∷ []) ∷ []) later
      (record later { releases = later.releases + 1 }) checked_run

abbrev src : Bytes
src = codes "export function b()\nexport function a<T>\nfunction c"

names-IsListing_example :
    IsChain Smaller (names ascii src (codes "export function "))
    × ((name : Bytes)
        → is_listed name (names ascii src (codes "export function "))
          ≡ any (declares ascii (codes "export function ") name) (split src b'\n'))
names-IsListing_example = names-IsListing ascii src (codes "export function ")

abbrev spec : Spec
spec = record {
  entry = codes "demo";
  module_name = codes "demo";
  purpose = codes "A demo.";
  limitations = codes "None.";
  source = codes "// SPDX-License-Identifier: MIT\nmodule demo\nexport function f()\n";
  regression = codes "f()";
  example = codes "f()";
}

abbrev index : Index
index = index_of (old_release ∷ [])

abbrev one : Batch
one = record { expected = codes "core demo"; count = 1 }

abbrev disk : Disk
disk = record { no_directory = λ path. false; denied = λ path. false }

abbrev Released : Type 0
Released = Fallible BatchError (Files × Index)

abbrev outcome : Released → Files × Index
outcome (ok done) = done
outcome (err e) = ([], index)

unfoldable batch_run : Released
unfolding release_batch codes
batch_run =
    release_batch ascii quote disk (codes "MIT") one (λ i. []) ((codes "demo", spec) ∷ []) index []

batch_tests :
    (batch_run ≡ ok (outcome batch_run))
    × (map (λ (f : Bytes × Bytes). f.0) (outcome batch_run).0
        ≡ codes "packages/noqeri/demo/0.1.1/package.noqeri"
          ∷ codes "packages/noqeri/demo/0.1.1/LICENSE"
          ∷ codes "packages/noqeri/demo/0.1.1/src/demo.noqeri"
          ∷ codes "packages/noqeri/demo/0.1.1/tests/regression.noqeri"
          ∷ codes "packages/noqeri/demo/0.1.1/examples/basic.noqeri"
          ∷ codes "packages/noqeri/demo/0.1.1/API_REFERENCE.md"
          ∷ codes "packages/noqeri/demo/0.1.1/README.md"
          ∷ codes "packages/noqeri/demo/0.1.1/RELEASE_NOTES.md"
          ∷ codes "registry/index.json"
          ∷ [])
unfolding batch_run codes
batch_tests = (refl, refl)

abbrev only_old : Catalog
only_old = record {
  root = codes "/srv";
  index = index;
  package_by_id = (codes "noqeri/demo", demo (old_release ∷ [])) ∷ [];
}

index_accepted : catalog_of (codes "/srv") index ≡ ok only_old
unfolding catalog_of codes str_eq open_packages check_package is_identity matches find
    check_versions is_version release_path package_id sort sort_versions
index_accepted = refl

abbrev stored_before : Storage
stored_before = record {
  absolute = λ root. some (codes "/srv");
  read_file = λ path. some (codes "{}");
  unmarshal_index = λ text. some index;
}

abbrev stored_after : Storage
stored_after = record {
  absolute = λ root. some (codes "/srv");
  read_file = λ path. read (codes "registry/index.json") (outcome batch_run).0;
  unmarshal_index = λ text. some (outcome batch_run).1;
}

repository_accepted : open_catalog stored_before (codes ".") ≡ ok only_old
unfolding open_catalog codes
repository_accepted = index_accepted

release_batch-IsReleased_example :
    All
      (λ (x : Bytes × Spec). is_released x.0 (outcome batch_run).1.packages ≡ true)
      ((codes "demo", spec) ∷ [])
    × ((c : Catalog) × (open_catalog stored_after (codes ".") ≡ ok c))
unfolding batch_run
release_batch-IsReleased_example =
    release_batch-IsReleased ascii quote disk (codes "MIT") one (λ i. [])
      ((codes "demo", spec) ∷ []) index (outcome batch_run).1 [] (outcome batch_run).0 stored_before
      stored_after (codes ".") (codes "/srv") (codes "{}") only_old refl refl refl
      repository_accepted batch_tests.0 refl refl refl (omega arith)

-- Both commands ask for more specifications than one.
count_tests :
    (releasebatch2 ascii quote disk (codes "MIT") (λ i. []) ((codes "csv", spec) ∷ []) index []
      ≡ err wrong_count)
    × (releasebatch3 ascii quote disk (codes "MIT") (λ i. []) ((codes "http", spec) ∷ []) index []
        ≡ err wrong_count)
unfolding releasebatch2 releasebatch3 release_batch
count_tests = (refl, refl)
