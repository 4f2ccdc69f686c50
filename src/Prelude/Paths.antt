-- ===== src/Prelude/Paths.antt =====
-- Rooted paths of the package path/filepath, on slashes, as the directory that they lead to.
use mathlib.Core.Path.{◌≡◌, refl}
use mathlib.Core.Logic.{inl, inr}
use mathlib.Core.Bool.{true, false, ◌||◌}
use mathlib.Core.List.{List, [], ◌∷◌, ◌++◌, map, reverse}
use noqeri_registry.Prelude.Tests.{Bool-cases, if◌then◌else◌}
use noqeri_registry.Prelude.Text.{Bytes, codes, str_eq, str_eq_iff, has_prefix, split}

-- The directory that the parts of a path lead to, its last name first: an empty part and a dot
-- stay, two dots go up.
unfoldable pub resolve : List Bytes → List Bytes → List Bytes
resolve dir [] = dir
resolve [] (s ∷ parts) =
    resolve (if str_eq s [] || (str_eq s (codes ".") || str_eq s (codes "..")) then [] else s ∷ [])
      parts
resolve (d ∷ dir) (s ∷ parts) =
    resolve
      (if str_eq s [] || str_eq s (codes ".")
        then d ∷ dir
        else if str_eq s (codes "..")
        then dir
        else s ∷ d ∷ dir)
      parts

-- `filepath.Clean` of a rooted path.
unfoldable pub locate : Bytes → List Bytes
unfolding resolve
locate path = resolve [] (split path b'/')

-- `filepath.Dir` of a clean path
unfoldable pub parent : List Bytes → List Bytes
parent [] = []
parent (s ∷ dir) = dir

unfoldable pub join_slash : List Bytes → Bytes
join_slash [] = []
join_slash (s ∷ []) = s
join_slash (s ∷ t ∷ rest) = s ++ b'/' ∷ join_slash (t ∷ rest)

unfoldable pub path_text : List Bytes → Bytes
unfolding join_slash
path_text dir = b'/' ∷ join_slash (reverse dir)

-- From one directory to another, by their names from the root.
unfoldable pub way : List Bytes → List Bytes → List Bytes
unfolding codes str_eq
way [] names = names
way (b ∷ base) [] = map (λ s. codes "..") (b ∷ base)
way (b ∷ base) (s ∷ names) =
    let same_way = way base names in
    if str_eq b s then same_way else map (λ s. codes "..") (b ∷ base) ++ s ∷ names

-- `filepath.Rel` of two clean rooted paths
unfoldable pub relative_path : List Bytes → List Bytes → Bytes
unfolding way join_slash codes
relative_path base dir = elim (way (reverse base) (reverse dir)) [
  | [] ↦ codes "."
  | s ∷ names ↦ join_slash (s ∷ names)
]

-- A directory lies at or below another one.
abbrev pub IsInside : List Bytes → List Bytes → Type 0
IsInside base dir = (below : List Bytes) × (reverse dir ≡ reverse base ++ below)

starts_up : (rest : List Bytes) → has_prefix (join_slash (codes ".." ∷ rest)) (codes "..") ≡ true
unfolding join_slash has_prefix codes
starts_up [] = refl
starts_up (s ∷ rest) = refl

abbrev text_of : List Bytes → Bytes
text_of names = elim names [ [] ↦ codes "." | s ∷ rest ↦ join_slash (s ∷ rest) ]

way-below :
    (base names : List Bytes)
    → has_prefix (text_of (way base names)) (codes "..") ≡ false
    → (below : List Bytes) × (names ≡ base ++ below)
unfolding way codes
way-below [] names h = (names, refl)
way-below (b ∷ base) [] h = let up = starts_up (map (λ (s : Bytes). codes "..") base) in cc (up, h)
way-below (b ∷ base) (s ∷ names) h = elim (Bool-cases (str_eq b s)) [
  | inl here ↦
      let (below, e) = way-below base names (rw here at h) in
      let same : b ≡ s = (str_eq_iff b s).0 here in (below, cc (same, e))
  | inr there ↦
      let up = starts_up (map (λ (x : Bytes). codes "..") base ++ s ∷ names) in
      cc (up, rw there at h)
]

-- A relative path that does not begin with two dots stays inside.
pub relative_path-IsInside :
    (base dir : List Bytes)
    → has_prefix (relative_path base dir) (codes "..") ≡ false
    → IsInside base dir
unfolding relative_path
relative_path-IsInside base dir h = way-below (reverse base) (reverse dir) h
