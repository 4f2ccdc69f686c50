-- ===== src/Registry/Pattern.antt =====
-- identityPattern and versionPattern of internal/registry/catalog.go. Both are anchored, so
-- MatchString is a match of the whole text.
use noqeri_registry.Prelude.{Bool, ◌&&◌, ◌||◌, ℕ, leb, ◌==◌}
use noqeri_registry.Prelude.Text.{Bytes}
use noqeri_registry.Prelude.Regex.{Regex, class, seq, alt, star, plus, optional, literal, matches}

abbrev pub is_digit : ℕ → Bool
is_digit c = leb b'0' c && leb c b'9'

abbrev pub is_positive_digit : ℕ → Bool
is_positive_digit c = leb b'1' c && leb c b'9'

abbrev pub is_lower : ℕ → Bool
is_lower c = leb b'a' c && leb c b'z'

abbrev pub is_upper : ℕ → Bool
is_upper c = leb b'A' c && leb c b'Z'

-- `[a-z0-9]` and `[a-z0-9-]`
abbrev pub is_identity_start : ℕ → Bool
is_identity_start c = is_lower c || is_digit c

abbrev pub is_identity_byte : ℕ → Bool
is_identity_byte c = is_lower c || (is_digit c || c == b'-')

unfoldable pub identity_pattern : Regex
identity_pattern = seq (class is_identity_start) (star (class is_identity_byte))

-- `0|[1-9][0-9]*`
abbrev pub number_pattern : Regex
number_pattern = alt (literal b'0') (seq (class is_positive_digit) (star (class is_digit)))

-- `[0-9A-Za-z.-]`
abbrev pub is_label_byte : ℕ → Bool
is_label_byte c = is_digit c || (is_upper c || (is_lower c || (c == b'.' || c == b'-')))

abbrev pub label_pattern : ℕ → Regex
label_pattern mark = optional (seq (literal mark) (plus (class is_label_byte)))

unfoldable pub version_pattern : Regex
version_pattern = seq number_pattern (
    seq (literal b'.') (
      seq number_pattern
        (seq (literal b'.') (seq number_pattern (seq (label_pattern b'-') (label_pattern b'+'))))))

unfoldable pub is_identity : Bytes → Bool
unfolding identity_pattern
is_identity s = matches identity_pattern s

unfoldable pub is_version : Bytes → Bool
unfolding version_pattern
is_version s = matches version_pattern s
