-- ===== src/Tools/Imports.antt =====
-- The two expressions that cmd/registryctl searches the text of a package for. What follows each
-- repeated part cannot begin like the part itself, so a match is read from left to right; where it
-- begins, the leftmost match is found.
use noqeri_registry.Prelude.{
  ℕ, zero, suc, ◌-◌, Bool, true, false, not, ◌||◌, List, [], ◌∷◌, Option, none, some, length, ◌≡◌,
  refl, if◌then◌else◌,
}
use noqeri_registry.Prelude.Text.{Bytes, codes, cut}
use noqeri_registry.Registry.Manifest.{
  ◌>>=◌, is_blank, is_word_byte, skip_blanks, expect, non_empty,
}

abbrev ends_word : Bytes → Bool
ends_word [] = true
ends_word (c ∷ s) = not (is_word_byte c)

abbrev ends_name : Option Bytes → Bool
ends_name none = false
ends_name (some s) = ends_word s

-- `.(nqr|nqo)([^a-zA-Z0-9_]|$)` at the front of a text
unfoldable pub starts_legacy : Bytes → Bool
unfolding expect codes
starts_legacy s = ends_name (expect (codes ".nqr") s) || ends_name (expect (codes ".nqo") s)

-- `legacy.Match`
unfoldable pub has_legacy : Bytes → Bool
unfolding starts_legacy
has_legacy [] = false
has_legacy (c ∷ s) = starts_legacy (c ∷ s) || has_legacy s

abbrev some_blank : Bytes → Option Bytes
some_blank [] = none
some_blank (c ∷ s) = if is_blank c then some s else none

-- `import\s+"([^"]+)"` at the front of a text: the group, and what follows the match.
unfoldable pub match_import : Bytes → Option (Bytes × Bytes)
unfolding expect skip_blanks cut codes
match_import s = do
  s1 ← expect (codes "import") s
  s2 ← some_blank s1
  s3 ← expect (b'"' ∷ []) (skip_blanks s2)
  (group, rest) ← cut s3 b'"'
  name ← non_empty group
  some (name, rest)

-- `relativeImport.FindAllSubmatch`: `skip` bytes still belong to the last match, and a match begins
-- behind a byte that belongs to no word.
unfoldable pub find_imports : ℕ → Bool → Bytes → List Bytes
unfolding match_import
find_imports skip in_word [] = []
find_imports (suc skip) in_word (c ∷ s) = find_imports skip (is_word_byte c) s
find_imports zero in_word (c ∷ s) = elim (if in_word then none else match_import (c ∷ s)) [
  | none ↦ find_imports zero (is_word_byte c) s
  | some (name, rest) ↦ name ∷ find_imports (length s - length rest) (is_word_byte c) s
]

expression_tests :
    (has_legacy (codes "see a.nqr, b") ≡ true)
    × (has_legacy (codes "a.nqrx b.nqi") ≡ false)
    × (find_imports 0 false
          (codes "import \"./a.noqeri\"\nreimport \"b\" import  \"../c\" import \"\"")
        ≡ codes "./a.noqeri" ∷ codes "../c" ∷ [])
unfolding has_legacy find_imports codes
expression_tests = (refl, refl, refl)
