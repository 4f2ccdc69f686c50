-- ===== src/Tools/Names/Listing.antt =====
-- What the list of names holds.
use mathlib.Core.List.{Perm, Nodup, Nodup-nil, Nodup-cons, Mem, mem-cons, not-mem-nil}
use mathlib.Core.List.Perm
use mathlib.Core.Logic.Or
use noqeri_registry.Prelude.{
  ◌≡◌, ◌≢◌, ◌↔◌, refl, ◌∙◌, Bool-ext, Bool, true, false, Bool-cases, inl, inr, List, [], ◌∷◌,
  Option, none, some, any, arith, ◌||◌,
}
use noqeri_registry.Prelude.Text.{Bytes, Unicode, str_eq, str_eq_iff, split}
use noqeri_registry.Prelude.Order.{
  below, same, IsOrder, nat_order, nat_order-IsOrder, list_order, list_order-IsOrder,
}
use noqeri_registry.Prelude.Sort.{sort, sort-perm, sort-IsSorted, IsSorted}
use noqeri_registry.Prelude.Strict.{IsChain}
use noqeri_registry.Tools.Names.{row_name, mark, collect, is_smaller, names}

abbrev pub Smaller : Bytes → Bytes → Type 0
Smaller a b = list_order nat_order a b ≡ below

text-IsOrder : IsOrder (list_order nat_order)
text-IsOrder = list_order-IsOrder nat_order nat_order-IsOrder

is_smaller_asymmetric : (a b : Bytes) → is_smaller a b ≡ true → is_smaller b a ≡ false
unfolding is_smaller
is_smaller_asymmetric a b h = ground (arith, text-IsOrder.mirrored a b)

smaller : (a b : Bytes) → is_smaller b a ≡ false → a ≢ b → Smaller a b
unfolding is_smaller
smaller a b h apart = ground (
  arith,
  text-IsOrder.mirrored a b,
  λ (e : list_order nat_order a b ≡ same). apart (text-IsOrder.exact _ _ e),
)

sorted-IsChain : (ns : List Bytes) → IsSorted is_smaller ns → Nodup ns → IsChain Smaller ns
sorted-IsChain [] h n = tt
sorted-IsChain (a ∷ []) h n = (tt, tt)
sorted-IsChain (a ∷ b ∷ rest) h n =
    let (absent, unique) = Nodup-cons.0 n in
    (smaller a b h.0 (λ e. absent (mem-cons.1 (Or.inl e))), sorted-IsChain (b ∷ rest) h.1 unique)

-- A name stands in a list.
abbrev pub is_listed : Bytes → List Bytes → Bool
is_listed name ns = any (str_eq name) ns

-- A line declares a name.
abbrev pub declares : Unicode → Bytes → Bytes → Bytes → Bool
declares u needle name line = elim (row_name u needle line) [
  | none ↦ false
  | some found ↦ str_eq name found
]

is_listed-mem : (name : Bytes) (ns : List Bytes) → (is_listed name ns ≡ true) ↔ Mem name ns
is_listed-mem name [] = (λ h. absurd (cc h), λ m. absurd (not-mem-nil m))
is_listed-mem name (n ∷ ns) = (
  λ h. elim (Bool-cases (str_eq name n)) [
    | inl this ↦ mem-cons.1 (Or.inl ((str_eq_iff name n).0 this))
    | inr other ↦ mem-cons.1 (Or.inr ((is_listed-mem name ns).0 (rw other at h)))
  ],
  λ m.
      Or.elim (hlevel) (mem-cons.0 m) (λ e. ground (arith, (str_eq_iff name n).1 e))
        (λ deep. ground (arith, (is_listed-mem name ns).1 deep)),
)

is_listed-Perm :
    (name : Bytes) (ns ms : List Bytes) → Perm ns ms → is_listed name ns ≡ is_listed name ms
is_listed-Perm name ns ms p =
    Bool-ext (is_listed name ns) (is_listed name ms)
      (λ h. (is_listed-mem name ms).1 ((Perm.mem_iff p).0 ((is_listed-mem name ns).0 h)))
      (λ h. (is_listed-mem name ns).1 ((Perm.mem_iff p).1 ((is_listed-mem name ms).0 h)))

mark-Nodup : (found : Option Bytes) (seen : List Bytes) → Nodup seen → Nodup (mark found seen)
mark-Nodup none seen h = h
mark-Nodup (some name) seen h = elim (Bool-cases (is_listed name seen)) [
  | inl old ↦ rw old h
  | inr new ↦ rw new (Nodup-cons.1 (λ m. absurd (cc (new, (is_listed-mem name seen).1 m)), h))
]

collect-Nodup :
    (u : Unicode) (needle : Bytes) (seen lines : List Bytes)
    → Nodup seen
    → Nodup (collect u needle seen lines)
unfolding collect
collect-Nodup u needle seen [] h = h
collect-Nodup u needle seen (line ∷ lines) h =
    collect-Nodup u needle (mark (row_name u needle line) seen) lines
      (mark-Nodup (row_name u needle line) seen h)

listed_twice :
    (name n : Bytes) (seen : List Bytes)
    → is_listed n seen ≡ true
    → is_listed name seen ≡ (str_eq name n || is_listed name seen)
listed_twice name n seen old = elim (Bool-cases (str_eq name n)) [
  | inl this ↦ rw (this, (str_eq_iff name n).0 this) old
  | inr other ↦ rw other refl
]

is_listed-mark :
    (name : Bytes) (found : Option Bytes) (seen : List Bytes)
    → is_listed name (mark found seen)
      ≡ (elim found [ none ↦ false | some n ↦ str_eq name n ] || is_listed name seen)
is_listed-mark name none seen = refl
is_listed-mark name (some n) seen = elim (Bool-cases (is_listed n seen)) [
  | inl old ↦ rw old (listed_twice name n seen old)
  | inr new ↦ rw new refl
]

swapped : (a b c : Bool) → ((a || b) || c) ≡ (b || (a || c))
swapped a b c = ground arith

is_listed-collect :
    (u : Unicode) (needle name : Bytes) (seen lines : List Bytes)
    → is_listed name (collect u needle seen lines)
      ≡ (is_listed name seen || any (declares u needle name) lines)
unfolding collect
is_listed-collect u needle name seen [] = ground arith
is_listed-collect u needle name seen (line ∷ lines) =
    is_listed-collect u needle name (mark (row_name u needle line) seen) lines
    ∙ rw (is_listed-mark name (row_name u needle line) seen) (
        swapped (declares u needle name line) (is_listed name seen)
          (any (declares u needle name) lines))

names-IsChain : (u : Unicode) (src needle : Bytes) → IsChain Smaller (names u src needle)
unfolding names
names-IsChain u src needle =
    let found = collect u needle [] (split src b'\n') in
    let unique =
      Perm.nodup (Perm.symm (sort-perm is_smaller found))
        (collect-Nodup u needle [] (split src b'\n') Nodup-nil) in
    sorted-IsChain (sort is_smaller found) (sort-IsSorted is_smaller is_smaller_asymmetric found)
      unique

-- The list of names rises strictly, and holds exactly the names that a line of the source declares.
pub names-IsListing :
    (u : Unicode) (src needle : Bytes)
    → IsChain Smaller (names u src needle)
      × ((name : Bytes)
          → is_listed name (names u src needle) ≡ any (declares u needle name) (split src b'\n'))
unfolding names
names-IsListing u src needle = (
  names-IsChain u src needle,
  λ name.
      is_listed-Perm name (names u src needle) (collect u needle [] (split src b'\n'))
        (sort-perm is_smaller (collect u needle [] (split src b'\n')))
      ∙ is_listed-collect u needle name [] (split src b'\n'),
)
