-- ===== src/Registry/Manifest.antt =====
-- entryPattern and dependencyPattern of internal/registry/archive.go. What follows each repeated
-- part of the two expressions cannot begin like the part itself, so a match is read from left to
-- right; where it begins, the leftmost match is found.
use noqeri_registry.Prelude.{
  ℕ, zero, suc, ◌-◌, Bool, true, false, not, ◌||◌, List, [], ◌∷◌, ◌++◌, Option, none, some, length,
  ◌≡◌, refl, ◌==◌, if◌then◌else◌,
}
use noqeri_registry.Prelude.Text.{Bytes, codes, cut, str_eq}
use noqeri_registry.Registry.Pattern.{is_digit, is_lower, is_upper}

-- `\s`: tab, line feed, form feed, carriage return, space
abbrev pub is_blank : ℕ → Bool
is_blank c = c == 9 || (c == 10 || (c == 12 || (c == 13 || c == 32)))

-- `[A-Za-z0-9_]`
abbrev pub is_word_byte : ℕ → Bool
is_word_byte c = is_lower c || (is_upper c || (is_digit c || c == b'_'))

unfoldable pub skip_blanks : Bytes → Bytes
skip_blanks [] = []
skip_blanks (c ∷ s) = let rest = skip_blanks s in if is_blank c then rest else c ∷ s

-- What follows a text in front.
unfoldable pub expect : Bytes → Bytes → Option Bytes
expect [] s = some s
expect (c ∷ p) [] = none
expect (c ∷ p) (d ∷ s) = let rest = expect p s in if d == c then rest else none

infixl 5 ◌>>=◌
abbrev pub ◌>>=◌ {ℓ κ} : {A : Type ℓ} {B : Type κ} → Option A → (A → Option B) → Option B
none >>= f = none
some a >>= f = f a

abbrev pub non_empty : Bytes → Option Bytes
non_empty [] = none
non_empty (c ∷ s) = some (c ∷ s)

-- `entry\s*:\s*"([^"]+)"` at the front of a text
unfoldable pub match_entry : Bytes → Option Bytes
unfolding expect skip_blanks cut codes
match_entry s = do
  s1 ← expect (codes "entry") s
  s2 ← expect (b':' ∷ []) (skip_blanks s1)
  s3 ← expect (b'"' ∷ []) (skip_blanks s2)
  (entry, _) ← cut s3 b'"'
  non_empty entry

-- `entryPattern.FindSubmatch`: the first match behind a byte that belongs to no word.
unfoldable pub find_entry : Bool → Bytes → Option Bytes
unfolding match_entry
find_entry in_word [] = none
find_entry in_word (c ∷ s) = elim (if in_word then none else match_entry (c ∷ s)) [
  | some entry ↦ some entry
  | none ↦ find_entry (is_word_byte c) s
]

-- The longest run of bytes that pass a test, and the rest.
unfoldable pub span : (ℕ → Bool) → Bytes → Bytes × Bytes
span p [] = ([], [])
span p (c ∷ s) = let (front, rest) = span p s in if p c then (c ∷ front, rest) else ([], c ∷ s)

unfoldable pub run : (ℕ → Bool) → Bytes → Option (Bytes × Bytes)
unfolding span
run p s = let (front, rest) = span p s in do some_front ← non_empty front; some (some_front, rest)

abbrev pub is_slug_byte : ℕ → Bool
is_slug_byte c = is_lower c || (is_digit c || c == b'-')

-- `[0-9A-Za-z.+-]`
abbrev pub is_tag_byte : ℕ → Bool
is_tag_byte c =
    is_digit c || (is_upper c || (is_lower c || (c == b'.' || (c == b'+' || c == b'-'))))

-- `\s*$` with `(?m)`: up to the end of the text, or up to the last line feed of the blanks.
unfoldable pub line_end : Bytes → Option Bytes
line_end [] = some []
line_end (c ∷ s) =
    let rest = line_end s in
    if not (is_blank c)
    then none
    else elim rest [ some later ↦ some later | none ↦ if c == 10 then some (c ∷ s) else none ]

abbrev pub starts_name : Bytes → Bool
starts_name [] = false
starts_name (c ∷ s) = not (is_digit c)

-- dependencyPattern at the front of a line: the two groups, and what follows the match.
unfoldable pub match_dependency : Bytes → Option ((Bytes × Bytes) × Bytes)
unfolding skip_blanks run expect line_end
match_dependency s = do
  (alias, s1) ← if starts_name (skip_blanks s) then run is_word_byte (skip_blanks s) else none
  s2 ← expect (b':' ∷ []) (skip_blanks s1)
  s3 ← expect (b'"' ∷ []) (skip_blanks s2)
  (space, s4) ← run is_slug_byte s3
  s5 ← expect (b'/' ∷ []) s4
  (name, s6) ← run is_slug_byte s5
  s7 ← expect (b'@' ∷ []) s6
  (tag, s8) ← run is_tag_byte s7
  s9 ← expect (b'"' ∷ []) s8
  rest ← line_end s9
  some ((alias, space ++ b'/' ∷ (name ++ b'@' ∷ tag)), rest)

-- `dependencyPattern.FindAllSubmatch`: `skip` bytes still belong to the last match.
unfoldable pub find_dependencies : ℕ → Bool → Bytes → List (Bytes × Bytes)
unfolding match_dependency
find_dependencies skip at_line [] = []
find_dependencies (suc skip) at_line (c ∷ s) = find_dependencies skip (c == 10) s
find_dependencies zero at_line (c ∷ s) = elim (if at_line then match_dependency (c ∷ s) else none) [
  | none ↦ find_dependencies zero (c == 10) s
  | some (found, rest) ↦ found ∷ find_dependencies (length s - length rest) (c == 10) s
]

-- `deps[alias] = target`
unfoldable pub assign_dependency : Bytes → Bytes → List (Bytes × Bytes) → List (Bytes × Bytes)
unfolding str_eq
assign_dependency alias target [] = (alias, target) ∷ []
assign_dependency alias target ((a, t) ∷ deps) =
    let rest = assign_dependency alias target deps in
    if str_eq a alias then (a, target) ∷ deps else (a, t) ∷ rest

-- The map of the matches: of one alias the last match counts.
unfoldable pub dependency_map : List (Bytes × Bytes) → List (Bytes × Bytes) → List (Bytes × Bytes)
unfolding assign_dependency
dependency_map deps [] = deps
dependency_map deps ((alias, target) ∷ found) =
    dependency_map (assign_dependency alias target deps) found

manifest_tests :
    (find_entry false (codes "package { name: \"a/b\" entry : \"src/main.noqeri\" }")
      ≡ some (codes "src/main.noqeri"))
    × (find_entry false (codes "reentry: \"x\"") ≡ none)
    × (find_dependencies 0 true
          (codes "x {\n a: \"noqeri/core@1.0.0\" \n\n b_2 :\"n/c@2\"\n 3: \"n/d@1\"\n}")
        ≡ (codes "a", codes "noqeri/core@1.0.0") ∷ (codes "b_2", codes "n/c@2") ∷ [])
    × (find_dependencies 0 true (codes "a: \"n/c@2\" // no") ≡ [])
    × (dependency_map []
          (find_dependencies 0 true (codes "a: \"n/c@1\"\nb: \"n/d@1\"\na: \"n/c@2\""))
        ≡ (codes "a", codes "n/c@2") ∷ (codes "b", codes "n/d@1") ∷ [])
unfolding find_entry find_dependencies dependency_map codes
manifest_tests = (refl, refl, refl, refl, refl)
