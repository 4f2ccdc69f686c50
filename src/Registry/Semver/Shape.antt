-- ===== src/Registry/Semver/Shape.antt =====
-- The parts that semverCompare finds in a text that versionPattern accepts.
use mathlib.Core.List.{append_assoc, append-nil}
use noqeri_registry.Prelude.{
  ℕ, ◌<◌, ◌≡◌, true, false, [], ◌∷◌, ◌++◌, Option, none, some, All, All-append, inl, inr, ◌⊎◌, ◌==◌,
  ==_iff, arith, ap, refl, ◌∙◌,
}
use noqeri_registry.Prelude.Text.{Bytes, split}
use noqeri_registry.Prelude.Cutting.{Lacks, cut-Lacks, cut-append, split-Lacks, split-append}
use noqeri_registry.Prelude.Order.{Sign, below, above, same, then_by}
use noqeri_registry.Prelude.Numeral.{
  IsDigit, IsNumeral, zero_numeral, positive_numeral, IsNumeral-digits,
}
use noqeri_registry.Prelude.Regex.{In, literal, seq, matches_iff, star-class-all}
use noqeri_registry.Registry.Pattern.{
  is_digit, is_label_byte, number_pattern, label_pattern, version_pattern, is_version,
}
use noqeri_registry.Registry.Semver.{
  before, split_release, split_version, or_releases, compare_number, compare_cores,
  compare_releases, semver_compare,
}

pub digits-Lacks : (sep : ℕ) (s : Bytes) → sep < b'0' → All IsDigit s → Lacks sep s
digits-Lacks sep [] h d = tt
digits-Lacks sep (c ∷ s) h d = (ground arith, digits-Lacks sep s h d.1)

pub numeral-Lacks : (sep : ℕ) (s : Bytes) → sep < b'0' → IsNumeral s → Lacks sep s
numeral-Lacks sep s h n = digits-Lacks sep s h (IsNumeral-digits s n)

-- No build label, or a plus sign in front of it.
abbrev pub IsBuild : Bytes → Type 0
IsBuild [] = Unit
IsBuild (c ∷ s) = c ≡ b'+'

-- A pre-release in its place behind the core.
abbrev pub label_text : Option Bytes → Bytes
label_text none = []
label_text (some t) = b'-' ∷ t

pub record Shape (s : Bytes) : Type 0 where
  pub major : Bytes
  pub minor : Bytes
  pub patch : Bytes
  pub label : Option Bytes
  pub build : Bytes
  pub text : s ≡ (major ++ b'.' ∷ (minor ++ b'.' ∷ (patch ++ label_text label))) ++ build
  pub major_numeral : IsNumeral major
  pub minor_numeral : IsNumeral minor
  pub patch_numeral : IsNumeral patch
  pub label_bytes : Lacks b'+' (label_text label)
  pub build_label : IsBuild build

core-Lacks :
    (sep : ℕ) (a b rest : Bytes)
    → sep < b'0'
    → (b'.' == sep) ≡ false
    → IsNumeral a
    → IsNumeral b
    → Lacks sep rest
    → Lacks sep (a ++ b'.' ∷ (b ++ b'.' ∷ rest))
core-Lacks sep a b rest h dot m n lacks =
    All-append _ a (b'.' ∷ (b ++ b'.' ∷ rest)) (numeral-Lacks sep a h m)
      (dot, All-append _ b (b'.' ∷ rest) (numeral-Lacks sep b h n) (dot, lacks))

before-build :
    (front build : Bytes) → Lacks b'+' front → IsBuild build → before (front ++ build) b'+' ≡ front
unfolding before
before-build front [] h k = rw (append-nil front) (rw (cut-Lacks b'+' front h, before) refl)
before-build front (c ∷ build) h k = rw (k, cut-append b'+' front build h, before) refl

divide :
    (core : Bytes) (label : Option Bytes)
    → Lacks b'-' core
    → split_release (core ++ label_text label) ≡ (core, label)
unfolding split_release
divide core none h = rw (append-nil core) (rw (cut-Lacks b'-' core h, split_release) refl)
divide core (some t) h = rw (cut-append b'-' core t h, split_release) refl

split_version-Shape :
    (s : Bytes) (h : Shape s)
    → split_version s ≡ (h.major ++ b'.' ∷ (h.minor ++ b'.' ∷ h.patch), h.label)
unfolding split_version
split_version-Shape s h =
    let core = h.major ++ b'.' ∷ (h.minor ++ b'.' ∷ h.patch) in
    let regroup : h.major ++ b'.' ∷ (h.minor ++ b'.' ∷ (h.patch ++ label_text h.label))
        ≡ core ++ label_text h.label =
      simp append_assoc in
    let bare : before s b'+' ≡ core ++ label_text h.label =
      ap (λ (t : Bytes). before t b'+') h.text
      ∙ before-build (h.major ++ b'.' ∷ (h.minor ++ b'.' ∷ (h.patch ++ label_text h.label))) h.build
          (core-Lacks b'+' h.major h.minor (h.patch ++ label_text h.label) (omega arith) refl
            h.major_numeral h.minor_numeral
            (All-append _ h.patch (label_text h.label)
              (numeral-Lacks b'+' h.patch (omega arith) h.patch_numeral) h.label_bytes))
          h.build_label
      ∙ regroup in
    ap split_release bare
    ∙ divide core h.label (
        core-Lacks b'-' h.major h.minor h.patch (omega arith) refl h.major_numeral h.minor_numeral
          (numeral-Lacks b'-' h.patch (omega arith) h.patch_numeral))

split-core :
    (a b c : Bytes)
    → IsNumeral a
    → IsNumeral b
    → IsNumeral c
    → split (a ++ b'.' ∷ (b ++ b'.' ∷ c)) b'.' ≡ a ∷ b ∷ c ∷ []
split-core a b c h k l = rw (
  split-append b'.' a (b ++ b'.' ∷ c) (numeral-Lacks b'.' a (omega arith) h),
  split-append b'.' b c (numeral-Lacks b'.' b (omega arith) k),
  split-Lacks b'.' c (numeral-Lacks b'.' c (omega arith) l),
)

three_cores :
    (a b c d e f : Bytes)
    → compare_cores 3 (a ∷ b ∷ c ∷ []) (d ∷ e ∷ f ∷ [])
      ≡ some (then_by (compare_number a d) (then_by (compare_number b e) (compare_number c f)))
unfolding compare_cores
three_cores a b c d e f = ground arith

pub or_releases-then_by : (c r : Sign) → or_releases (some c) r ≡ some (then_by c r)
or_releases-then_by below r = refl
or_releases-then_by same r = refl
or_releases-then_by above r = refl

Shape-split :
    (s : Bytes) (h : Shape s) → split (split_version s).0 b'.' ≡ h.major ∷ h.minor ∷ h.patch ∷ []
Shape-split s h =
    ap (λ (t : Bytes × Option Bytes). split t.0 b'.') (split_version-Shape s h)
    ∙ split-core h.major h.minor h.patch h.major_numeral h.minor_numeral h.patch_numeral

unfoldable pub compare_shapes : {a b : Bytes} → Shape a → Shape b → Sign
compare_shapes h k =
    then_by
      (then_by (compare_number h.major k.major)
        (then_by (compare_number h.minor k.minor) (compare_number h.patch k.patch)))
      (compare_releases h.label k.label)

-- On two texts of this form semverCompare does not panic.
pub semver_compare-Shape :
    (a b : Bytes) (h : Shape a) (k : Shape b) → semver_compare a b ≡ some (compare_shapes h k)
unfolding semver_compare compare_shapes
semver_compare-Shape a b h k =
    rw
      (
        Shape-split a h,
        Shape-split b k,
        three_cores h.major h.minor h.patch k.major k.minor k.patch,
        ap (λ (t : Bytes × Option Bytes). t.1) (split_version-Shape a h),
        ap (λ (t : Bytes × Option Bytes). t.1) (split_version-Shape b k),
      )
      (or_releases-then_by _ (compare_releases h.label k.label))

number_pattern-IsNumeral : (s : Bytes) → In number_pattern s → IsNumeral s
number_pattern-IsNumeral s (inl (c, single, zero)) =
    zero_numeral s (single ∙ ap (λ (d : ℕ). d ∷ []) ((==_iff c b'0').0 zero))
number_pattern-IsNumeral s (inr (a, b, joined, (c, single, first), rest)) =
    positive_numeral s c b (joined ∙ ap (λ (t : Bytes). t ++ b) single) (ground arith)
      (ground arith) (digits b (star-class-all is_digit b rest))
  where
    digits : (t : Bytes) → All (λ c. is_digit c ≡ true) t → All IsDigit t
    digits [] h = tt
    digits (c ∷ t) h = ((ground (arith, h.0), ground (arith, h.0)), digits t h.1)

label-Lacks : (t : Bytes) → All (λ c. is_label_byte c ≡ true) t → Lacks b'+' t
label-Lacks [] h = tt
label-Lacks (c ∷ t) h = (ground (arith, h.0), label-Lacks t h.1)

-- A label with its mark, and the bytes behind it.
label_pattern-bytes :
    (mark : ℕ) (s : Bytes)
    → In (label_pattern mark) s
    → (s ≡ []) ⊎ ((t : Bytes) × (s ≡ mark ∷ t) × All (λ c. is_label_byte c ≡ true) t)
label_pattern-bytes mark s (inr e) = inl e
label_pattern-bytes mark s
      (inl (a, b, joined, (c, single, marked), (d, e, joined', (f, single', good), rest))) =
    inr (
      f ∷ e,
      joined
          ∙ ap (λ (t : Bytes). t ++ b) single
          ∙ ap (λ (x : ℕ). x ∷ b) ((==_iff c mark).0 marked)
          ∙ ap (◌∷◌ mark) (joined' ∙ ap (λ (t : Bytes). t ++ e) single'),
      (good, star-class-all is_label_byte e rest),
    )

dot : (s : Bytes) → In (literal b'.') s → s ≡ b'.' ∷ []
dot s (c, single, h) = single ∙ ap (λ (d : ℕ). d ∷ []) ((==_iff c b'.').0 h)

-- Two labels, of which the second is the build's.
record Labels (s : Bytes) : Type 0 where
  label : Option Bytes
  build : Bytes
  joined : s ≡ label_text label ++ build
  label_bytes : Lacks b'+' (label_text label)
  build_label : IsBuild build

labels : (s : Bytes) → In (seq (label_pattern b'-') (label_pattern b'+')) s → Labels s
labels s (a, b, joined, l, m) = elim (label_pattern-bytes b'+' b m) [
  | inl none_b ↦ elim (label_pattern-bytes b'-' a l) [
    | inl none_a ↦ record {
      label = none;
      build = [];
      joined = joined ∙ ap (λ (t : Bytes). t ++ b) none_a ∙ none_b;
      label_bytes = tt;
      build_label = tt;
    }
    | inr (t, e, good) ↦ record {
      label = some t;
      build = [];
      joined = joined ∙ ap (λ (u : Bytes). u ++ b) e ∙ ap (◌++◌ (b'-' ∷ t)) none_b;
      label_bytes = (refl, label-Lacks t good);
      build_label = tt;
    }
  ]
  | inr (u, e', good') ↦ elim (label_pattern-bytes b'-' a l) [
    | inl none_a ↦ record {
      label = none;
      build = b'+' ∷ u;
      joined = joined ∙ ap (λ (t : Bytes). t ++ b) none_a ∙ e';
      label_bytes = tt;
      build_label = refl;
    }
    | inr (t, e, good) ↦ record {
      label = some t;
      build = b'+' ∷ u;
      joined = joined ∙ ap (λ (w : Bytes). w ++ b) e ∙ ap (◌++◌ (b'-' ∷ t)) e';
      label_bytes = (refl, label-Lacks t good);
      build_label = refl;
    }
  ]
]

pub is_version-Shape : (s : Bytes) → is_version s ≡ true → Shape s
unfolding is_version
is_version-Shape s h = go ((matches_iff version_pattern s).0 h)
  where
    go : In version_pattern s → Shape s
    go (a, s1, j1, n1, (d1, s2, j2, p1, (b, s3, j3, n2, (d2, s4, j4, p2, (c, s5, j5, n3, rest))))) =
        let l = labels s5 rest in
        record {
          major = a;
          minor = b;
          patch = c;
          label = l.label;
          build = l.build;
          text = rw (j1, j2, dot d1 p1, j3, j4, dot d2 p2, j5, l.joined) (simp append_assoc);
          major_numeral = number_pattern-IsNumeral a n1;
          minor_numeral = number_pattern-IsNumeral b n2;
          patch_numeral = number_pattern-IsNumeral c n3;
          label_bytes = l.label_bytes;
          build_label = l.build_label;
        }
