-- ===== src/Tools/Tests.antt =====
-- A release on the disk, and what the commands say of it.
mod Generators
use noqeri_registry.Prelude.{if◌then◌else◌, ◌≡◌, refl, false, [], ◌∷◌, ◌++◌, none, some, All, ◌||◌}
use noqeri_registry.Prelude.Text.{Bytes, codes, str_eq}
use noqeri_registry.Prelude.Fallible.{ok, err}
use noqeri_registry.Registry.Archive.{directory, regular, symlink}
use noqeri_registry.Registry.Tests.Fixtures.{old_release, new_release, demo, storage, catalog}
use noqeri_registry.Tools.Check.{
  entry, Ground, is_none, check_release, verify_packages, verified, audited, run_command,
  registryctl, wrong_usage, unknown_command, import_outside, missing_import, symlinks_forbidden,
  legacy_reference,
}
use noqeri_registry.Tools.Check.Inside.{IsSound, check_release-IsSound}
use noqeri_registry.Tools.Check.Verified.{ArePassed, count_all_live, verify_packages_iff}

abbrev place : Bytes
place = codes "/srv/packages/noqeri/demo/0.10.0"

unfoldable ground_of : Bytes → Ground
unfolding codes str_eq
ground_of source = record {
  manifest = some (codes "package {}");
  visits =
      entry place directory none
      ∷ entry (place ++ codes "/package.noqeri") regular (some (codes "package {}"))
      ∷ entry (place ++ codes "/src/main.noqeri") regular (some source)
      ∷ [];
  exists = λ path.
      str_eq path (codes "/srv/packages/noqeri/demo/0.10.0/lib/a.noqeri")
      || str_eq path (codes "/srv/packages/noqeri/other/b.noqeri");
}

abbrev good_source : Bytes
good_source = codes "import \"../lib/a.noqeri\"\nimport \"std\"\n"

check_release_tests :
    (check_release (ground_of good_source) place ≡ ok tt)
    × (check_release (ground_of (codes "import \"../../../other/b.noqeri\"")) place
        ≡ err (import_outside (codes "../../../other/b.noqeri")))
    × (check_release (ground_of (codes "import \"./c.noqeri\"")) place
        ≡ err (missing_import (codes "./c.noqeri")))
    × (check_release (ground_of (codes "// a.nqr")) place
        ≡ err (legacy_reference (place ++ codes "/src/main.noqeri")))
    × (check_release (record (ground_of []) { visits = entry place symlink none ∷ [] }) place
        ≡ err symlinks_forbidden)
unfolding check_release ground_of codes
check_release_tests = (refl, refl, refl, refl, refl)

check_release-IsSound_example :
    (is_none (ground_of good_source).manifest ≡ false)
    × All (IsSound (ground_of good_source) place) (ground_of good_source).visits
check_release-IsSound_example =
    check_release-IsSound (ground_of good_source) place check_release_tests.0

-- Only the files of the release that is not yanked are good.
unfoldable files : Bytes → Ground
unfolding codes str_eq ground_of
files root = if str_eq root place then ground_of good_source else ground_of (codes "a.nqo")

registryctl_tests :
    (run_command files catalog (codes "verify") ≡ ok (verified 1))
    × (run_command files catalog (codes "audit") ≡ ok (audited 1 2))
    × (run_command files catalog (codes "check") ≡ err unknown_command)
    × (registryctl storage files (codes "/srv") [] ≡ err wrong_usage)
unfolding registryctl run_command files codes
registryctl_tests = (refl, refl, refl, refl)

verified_one :
    verify_packages files (codes "/srv") 0 (demo (old_release ∷ new_release ∷ []) ∷ []) ≡ ok 1
unfolding verify_packages files
verified_one = refl

verify_packages_iff_example :
    All (ArePassed files (codes "/srv")) (demo (old_release ∷ new_release ∷ []) ∷ [])
    × (1 ≡ count_all_live (demo (old_release ∷ new_release ∷ []) ∷ []))
verify_packages_iff_example =
    (verify_packages_iff files (codes "/srv") 1 (demo (old_release ∷ new_release ∷ []) ∷ [])).0
      verified_one
