-- ===== src/Prelude/Text.antt =====
-- Go strings as byte sequences, with the functions of the package `strings` that the program calls.
use Prim.Native.Nat.{ℕ, ◌+◌, ◌-◌}
use Prim.Native.Char.{code}
use Prim.Native.String.{String}
use mathlib.Core.Path.{◌≡◌, refl}
use mathlib.Core.Logic.{◌↔◌}
use mathlib.Core.Bool.{Bool, true, false, ◌&&◌, ◌||◌}
use mathlib.Core.Option.{Option, none, some}
use mathlib.Core.List.{List, [], ◌∷◌, map, reverse}
use native.Mathlib.Omega.{arith}
use noqeri_registry.Prelude.Tests.{◌==◌, leb, if◌then◌else◌}

abbrev pub Bytes : Type 0
Bytes = List ℕ

-- The bytes of an ASCII literal.
unfoldable pub codes : String → Bytes
codes String.[] = []
codes (String.◌∷◌ c s) = code c ∷ codes s

-- `a == b` on strings
unfoldable pub str_eq : Bytes → Bytes → Bool
str_eq [] [] = true
str_eq [] (_ ∷ _) = false
str_eq (_ ∷ _) [] = false
str_eq (x ∷ a) (y ∷ b) = x == y && str_eq a b

pub str_eq_iff : (a b : Bytes) → (str_eq a b ≡ true) ↔ (a ≡ b)
unfolding str_eq
str_eq_iff [] [] = ground arith
str_eq_iff [] (y ∷ b) = ground arith
str_eq_iff (x ∷ a) [] = ground arith
str_eq_iff (x ∷ a) (y ∷ b) = ground (arith, str_eq_iff a b)

unfoldable pub has_prefix : Bytes → Bytes → Bool
has_prefix s [] = true
has_prefix [] (_ ∷ _) = false
has_prefix (d ∷ s) (c ∷ p) = d == c && has_prefix s p

unfoldable pub has_suffix : Bytes → Bytes → Bool
unfolding has_prefix
has_suffix s p = has_prefix (reverse s) (reverse p)

-- `strings.IndexByte(s, c) >= 0`
unfoldable pub contains_byte : ℕ → Bytes → Bool
contains_byte c [] = false
contains_byte c (d ∷ s) = d == c || contains_byte c s

-- `strings.ContainsAny(s, chars)` over ASCII `chars`
unfoldable pub contains_any : Bytes → Bytes → Bool
unfolding contains_byte
contains_any [] chars = false
contains_any (d ∷ s) chars = contains_byte d chars || contains_any s chars

unfoldable pub contains : Bytes → Bytes → Bool
unfolding has_prefix
contains [] sub = has_prefix [] sub
contains (d ∷ s) sub = has_prefix (d ∷ s) sub || contains s sub

-- Puts a byte in front of the first part.
abbrev prepend : ℕ → List Bytes → List Bytes
prepend c [] = (c ∷ []) ∷ []
prepend c (p ∷ ps) = (c ∷ p) ∷ ps

-- `strings.Split(s, sep)` at a one-byte separator: always one part at least
unfoldable pub split : Bytes → ℕ → List Bytes
split [] sep = [] ∷ []
split (c ∷ s) sep = let parts = split s sep in if c == sep then [] ∷ parts else prepend c parts

-- `strings.SplitN(s, sep, 2)` where it gives two parts
unfoldable pub cut : Bytes → ℕ → Option (Bytes × Bytes)
cut [] sep = none
cut (c ∷ s) sep =
    let rest = cut s sep in
    if c == sep then some ([], s) else elim rest [ none ↦ none | some (a, b) ↦ some (c ∷ a, b) ]

-- `strings.ReplaceAll(s, old, new)` at single bytes
unfoldable pub replace_byte : ℕ → ℕ → Bytes → Bytes
replace_byte old new [] = []
replace_byte old new (c ∷ s) = (if c == old then new else c) ∷ replace_byte old new s

unfoldable pub is_ascii : Bytes → Bool
is_ascii [] = true
is_ascii (c ∷ s) = leb c 127 && is_ascii s

unfoldable pub lower_byte : ℕ → ℕ
lower_byte c = if leb b'A' c && leb c b'Z' then c + 32 else c

unfoldable pub upper_byte : ℕ → ℕ
upper_byte c = if leb b'a' c && leb c b'z' then c - 32 else c

-- What the Go library does to text that is not ASCII: its Unicode tables are no part of the model.
pub record Unicode : Type 0 where
  pub lower : Bytes → Bytes
  pub upper : Bytes → Bytes
  pub fold_eq : Bytes → Bytes → Bool
  pub trim : Bytes → Bytes

-- `strings.ToLower`, with the library's own fast path for ASCII
unfoldable pub to_lower : Unicode → Bytes → Bytes
unfolding is_ascii lower_byte
to_lower u s = if is_ascii s then map lower_byte s else u.lower s

-- `strings.ToUpper`
unfoldable pub to_upper : Unicode → Bytes → Bytes
unfolding is_ascii upper_byte
to_upper u s = if is_ascii s then map upper_byte s else u.upper s

-- `strings.EqualFold`
unfoldable pub equal_fold : Unicode → Bytes → Bytes → Bool
unfolding is_ascii lower_byte str_eq
equal_fold u a b =
    if is_ascii a && is_ascii b then str_eq (map lower_byte a) (map lower_byte b) else u.fold_eq a b

-- tab, line feed, vertical tab, form feed, carriage return, space
unfoldable pub is_space : ℕ → Bool
is_space c = (leb 9 c && leb c 13) || c == 32

unfoldable pub trim_left : Bytes → Bytes
unfolding is_space
trim_left [] = []
trim_left (c ∷ s) = let rest = trim_left s in if is_space c then rest else c ∷ s

abbrev leads_ascii : Bytes → Bool
leads_ascii [] = true
leads_ascii (c ∷ s) = leb c 127

-- `strings.TrimSpace`: the ASCII spaces, and the Unicode ones where it meets a byte over 127
unfoldable pub trim_space : Unicode → Bytes → Bytes
unfolding trim_left
trim_space u s =
    let start = trim_left s in
    let stop = trim_left (reverse start) in
    if leads_ascii start && leads_ascii stop then reverse stop else u.trim (reverse stop)

text_tests :
    (split (codes "a,,b") b',' ≡ codes "a" ∷ [] ∷ codes "b" ∷ [])
    × (cut (codes "t=1=2") b'=' ≡ some (codes "t", codes "1=2"))
    × (has_suffix (codes "x.auth0.com") (codes ".auth0.com") ≡ true)
    × (trim_left (codes " \ta ") ≡ codes "a ")
    × (contains (codes "a%2fb") (codes "%2f") ≡ true)
unfolding split cut has_suffix trim_left codes contains
text_tests = (refl, refl, refl, refl, refl)
