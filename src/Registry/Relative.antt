-- ===== src/Registry/Relative.antt =====
-- SafeRelative of internal/registry/archive.go.
pub mod Confined
use noqeri_registry.Prelude.{Bool, false, not, ◌||◌, [], ◌∷◌, length, ltb, if◌then◌else◌, all}
use noqeri_registry.Prelude.Text.{
  Bytes, codes, str_eq, has_prefix, contains_byte, contains_any, split,
}

-- `s==""||s=="."||s==".."`
unfoldable pub is_dots : Bytes → Bool
unfolding str_eq codes
is_dots s = str_eq s [] || (str_eq s (codes ".") || str_eq s (codes ".."))

-- `path.IsAbs`
abbrev pub is_absolute : Bytes → Bool
is_absolute name = has_prefix name (b'/' ∷ [])

unfoldable pub safe_relative : Bytes → Bool
unfolding is_dots contains_any contains_byte has_prefix split
safe_relative name =
    if str_eq name []
      || (ltb 100 (length name) || (contains_any name (b'\\' ∷ 0 ∷ []) || is_absolute name))
    then false
    else all (λ s. not (is_dots s)) (split name b'/')
