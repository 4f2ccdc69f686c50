-- ===== src/Registry/Semver/Precedence.antt =====
-- semverCompare decides the precedence of versions.
use noqeri_registry.Prelude.{◌≡◌, some, arith}
use noqeri_registry.Prelude.Text.{Bytes}
use noqeri_registry.Prelude.Order.{nat_order, pair_order}
use noqeri_registry.Prelude.Numeral.{IsNumeral, value, parse_uint-numeral, text_order-value}
use noqeri_registry.Registry.Semver.{compare_number, semver_compare}
use noqeri_registry.Registry.Semver.Shape.{compare_shapes, semver_compare-Shape}
use noqeri_registry.Registry.Semver.Version.{Version, version_order, IsVersion, AreSmall}
use noqeri_registry.Registry.Semver.Identifiers.{compare_releases-order}

pub compare_number-order :
    (a b : Bytes)
    → IsNumeral a
    → IsNumeral b
    → compare_number a b ≡ nat_order (value 0 a) (value 0 b)
unfolding compare_number
compare_number-order a b h k =
    ground (arith, parse_uint-numeral a h, parse_uint-numeral b k, text_order-value a b h k)

-- On texts of two versions of semantic versioning whose pre-releases have only numbers below 2 ^ 64,
-- semverCompare does not panic, and answers with their precedence: that of the numbers of the core,
-- of any size, then of a release over its pre-releases, then of their identifiers. Numbers of such
-- texts have no leading zeros.
pub semver_compare-version_order :
    (a b : Bytes) (v w : Version)
    → IsVersion a v
    → IsVersion b w
    → AreSmall v.1
    → AreSmall w.1
    → semver_compare a b ≡ some (version_order v w)
unfolding compare_shapes version_order pair_order
semver_compare-version_order a b v w h k small small' =
    let s = h.parts in
    let t = k.parts in
    rw (
      semver_compare-Shape a b s t,
      compare_number-order s.major t.major s.major_numeral t.major_numeral,
      compare_number-order s.minor t.minor s.minor_numeral t.minor_numeral,
      compare_number-order s.patch t.patch s.patch_numeral t.patch_numeral,
      compare_releases-order s.label t.label v.1 w.1 h.labelled k.labelled small small',
      h.major_value,
      h.minor_value,
      h.patch_value,
      k.major_value,
      k.minor_value,
      k.patch_value,
    )
