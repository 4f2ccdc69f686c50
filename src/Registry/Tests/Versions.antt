-- ===== src/Registry/Tests/Versions.antt =====
-- Versions, paths and catalogs of the tests.
use noqeri_registry.Prelude.{◌≡◌, ◌↔◌, refl, true, [], ◌∷◌, some, none, arith, inl}
use noqeri_registry.Prelude.Text.{Bytes, codes, split, str_eq}
use noqeri_registry.Prelude.Fallible.{ok}
use noqeri_registry.Prelude.Number.{parse_uint, scan_digits}
use noqeri_registry.Prelude.Order.{
  Sign, below, above, nat_order, list_order, option_order, pair_order,
}
use noqeri_registry.Prelude.Numeral.{IsNumeral, zero_numeral, positive_numeral, value, text_order}
use noqeri_registry.Prelude.Regex.{matches}
use noqeri_registry.Prelude.Sort.{sort, sort_onto, sink, unwind}
use noqeri_registry.Registry.Pattern.{is_version, is_identity, identity_pattern, version_pattern}
use noqeri_registry.Registry.Semver.{
  before, split_release, split_version, compare_number, compare_cores, compare_identifier,
  compare_identifiers, compare_releases, semver_compare,
}
use noqeri_registry.Registry.Semver.Version.{
  Version, IsVersion, number, word, identifier_order, version_order,
}
use noqeri_registry.Registry.Semver.Precedence.{semver_compare-version_order}
use noqeri_registry.Registry.Semver.Mirror.{semver_compare_asymmetric}
use noqeri_registry.Registry.Catalog.{
  Index, open_catalog, catalog_of, open_packages, check_package, check_versions, find, package_id,
  release_path, is_newer, sort_versions, has_smaller_id, join,
}
use noqeri_registry.Registry.Catalog.Opened.{IsReading, IsCatalog, open_catalog-IsCatalog}
use noqeri_registry.Registry.Relative.{safe_relative}
use noqeri_registry.Registry.Relative.Confined.{IsBelow, safe_relative_iff}
use noqeri_registry.Registry.Tests.Fixtures.{storage, catalog}

unfoldable pub patterns : Unit {0}
unfolding codes is_version is_identity identity_pattern version_pattern matches
patterns = tt

comparison : Unit {0}
unfolding patterns semver_compare compare_cores split split_version before split_release
    compare_number compare_identifier compare_identifiers compare_releases parse_uint scan_digits
    text_order list_order nat_order str_eq
comparison = tt

opening : Unit {0}
unfolding comparison storage open_catalog catalog_of open_packages check_package check_versions find
    package_id release_path sort sort_onto sink unwind is_newer sort_versions has_smaller_id join
opening = tt

safe_relative_iff_example :
    (safe_relative (codes "src/main.noqeri") ≡ true) ↔ IsBelow (codes "src/main.noqeri")
safe_relative_iff_example = safe_relative_iff (codes "src/main.noqeri")

pub opened : open_catalog storage (codes "/srv") ≡ ok catalog
unfolding opening
opened = refl

open_catalog-IsCatalog_example :
    (index : Index) × IsReading storage (codes "/srv") index catalog × IsCatalog index catalog
open_catalog-IsCatalog_example = open_catalog-IsCatalog storage (codes "/srv") catalog opened

-- A pre-release with a leading zero, and one without.
accepted : (is_version (codes "1.0.0-01") ≡ true) × (is_version (codes "1.0.0-1") ≡ true)
unfolding patterns
accepted = (refl, refl)

-- Each of the two is below the other.
unordered :
    (semver_compare (codes "1.0.0-01") (codes "1.0.0-1") ≡ some below)
    × (semver_compare (codes "1.0.0-1") (codes "1.0.0-01") ≡ some below)
unfolding comparison
unordered = (refl, refl)

semver_compare_asymmetric_example :
    (sign : Sign) × (semver_compare (codes "1.0.0-01") (codes "1.0.0-1") ≡ some sign)
    × (sign ≡ above → semver_compare (codes "1.0.0-1") (codes "1.0.0-01") ≡ some below)
semver_compare_asymmetric_example =
    semver_compare_asymmetric (codes "1.0.0-01") (codes "1.0.0-1") accepted.0 accepted.1

-- 0.10.0-rc.1
abbrev candidate : Version
candidate = ((0, (10, 0)), some (word (codes "rc") ∷ number 1 ∷ []))

-- 0.9.0
abbrev old : Version
old = ((0, (9, 0)), none)

abbrev one : Bytes
one = b'1' ∷ []

abbrev zero_text : Bytes
zero_text = b'0' ∷ []

one-IsNumeral : IsNumeral one
one-IsNumeral = positive_numeral _ b'1' [] refl (omega arith) (omega arith) tt

nine-IsNumeral : IsNumeral (b'9' ∷ [])
nine-IsNumeral = positive_numeral _ b'9' [] refl (omega arith) (omega arith) tt

ten-IsNumeral : IsNumeral (b'1' ∷ b'0' ∷ [])
ten-IsNumeral =
    positive_numeral _ b'1' (b'0' ∷ []) refl (omega arith) (omega arith)
      ((omega arith, omega arith), tt)

candidate-IsVersion : IsVersion (codes "0.10.0-rc.1+build") candidate
unfolding codes value
candidate-IsVersion = record {
  parts = record {
    major = zero_text;
    minor = b'1' ∷ b'0' ∷ [];
    patch = zero_text;
    label = some (codes "rc.1");
    build = codes "+build";
    text = refl;
    major_numeral = zero_numeral _ refl;
    minor_numeral = ten-IsNumeral;
    patch_numeral = zero_numeral _ refl;
    label_bytes = (refl, (refl, (refl, (refl, (refl, tt)))));
    build_label = refl;
  };
  major_value = refl;
  minor_value = refl;
  patch_value = refl;
  labelled = (
    codes "rc",
    one,
    refl,
    (refl, ((refl, refl), ((refl, refl), tt)), inl refl),
    (one-IsNumeral, refl),
  );
}

old-IsVersion : IsVersion (codes "0.9.0") old
unfolding codes value
old-IsVersion = record {
  parts = record {
    major = zero_text;
    minor = b'9' ∷ [];
    patch = zero_text;
    label = none;
    build = [];
    text = refl;
    major_numeral = zero_numeral _ refl;
    minor_numeral = nine-IsNumeral;
    patch_numeral = zero_numeral _ refl;
    label_bytes = tt;
    build_label = tt;
  };
  major_value = refl;
  minor_value = refl;
  patch_value = refl;
  labelled = tt;
}

semver_compare-version_order_example :
    semver_compare (codes "0.10.0-rc.1+build") (codes "0.9.0") ≡ some (version_order candidate old)
semver_compare-version_order_example =
    semver_compare-version_order (codes "0.10.0-rc.1+build") (codes "0.9.0") candidate old
      candidate-IsVersion old-IsVersion (tt, (omega arith, tt)) tt

order_test : version_order candidate old ≡ above
unfolding version_order identifier_order pair_order option_order list_order nat_order
order_test = refl
