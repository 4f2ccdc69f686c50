-- ===== src/Tools/Names.antt =====
-- The names that a Noqeri source declares behind a keyword, as the generators of releases list them:
-- names of cmd/releasebatch2 and cmd/releasebatch3, exportNames of cmd/packageupgrade.
pub mod Listing
use noqeri_registry.Prelude.{
  Bool, true, false, not, ◌||◌, List, [], ◌∷◌, Option, none, some, any, ◌==◌, if◌then◌else◌, ℕ, ◌≡◌,
  refl,
}
use noqeri_registry.Prelude.Text.{Bytes, Unicode, codes, str_eq, split, trim_space}
use noqeri_registry.Prelude.Order.{below, nat_order, list_order}
use noqeri_registry.Prelude.Sort.{sort}
use noqeri_registry.Registry.Manifest.{◌>>=◌, expect, span, non_empty}

abbrev is_stop : ℕ → Bool
is_stop c = c == b'(' || (c == b'<' || c == b' ')

unfoldable pub skip_stops : Bytes → Bytes
skip_stops [] = []
skip_stops (c ∷ s) = let rest = skip_stops s in if is_stop c then rest else c ∷ s

-- `strings.FieldsFunc(...)[0]`, if there is one
unfoldable pub first_field : Bytes → Option Bytes
unfolding skip_stops span
first_field s = non_empty (span (λ c. not (is_stop c)) (skip_stops s)).0

-- The name on a line, behind the keyword.
unfoldable pub row_name : Unicode → Bytes → Bytes → Option Bytes
unfolding first_field expect trim_space
row_name u needle line = expect needle (trim_space u line) >>= first_field

-- `seen[name] = true`
abbrev pub mark : Option Bytes → List Bytes → List Bytes
mark none seen = seen
mark (some name) seen = if any (str_eq name) seen then seen else name ∷ seen

-- The loop over the lines. The keys of `seen` are listed in some order.
unfoldable pub collect : Unicode → Bytes → List Bytes → List Bytes → List Bytes
unfolding row_name str_eq
collect u needle seen [] = seen
collect u needle seen (line ∷ lines) = collect u needle (mark (row_name u needle line) seen) lines

-- `a < b` on strings
unfoldable pub is_smaller : Bytes → Bytes → Bool
unfolding list_order nat_order
is_smaller a b = elim (list_order nat_order a b) [ below ↦ true | _ ↦ false ]

unfoldable pub names : Unicode → Bytes → Bytes → List Bytes
unfolding collect is_smaller sort split
names u src needle = sort is_smaller (collect u needle [] (split src b'\n'))

abbrev ascii : Unicode
ascii = record { lower = λ s. s; upper = λ s. s; fold_eq = str_eq; trim = λ s. s }

names_tests :
    names ascii
      (codes "export function b(x)\n  export function a<T>\nexport function b\nfunction c")
      (codes "export function ")
    ≡ codes "a" ∷ codes "b" ∷ []
unfolding names codes
names_tests = refl
