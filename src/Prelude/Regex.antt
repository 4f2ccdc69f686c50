-- ===== src/Prelude/Regex.antt =====
-- Regular expressions of the package `regexp` without captures, matched against a whole text by
-- derivatives.
use noqeri_registry.Prelude.Tests.{Bool-cases, &&_iff, ◌==◌}
use noqeri_registry.Prelude.Lists.{All}
use noqeri_registry.Prelude.Text.{Bytes}
use mathlib.Core.Path.{◌≡◌, refl, sym, ap, subst, ◌∙◌}
use mathlib.Core.Logic.{◌⊎◌, inl, inr, ◌↔◌}
use mathlib.Core.Bool.{Bool, true, false, ◌&&◌, ◌||◌}
use mathlib.Core.List.{List, [], ◌∷◌, ◌++◌}
use Prim.Native.Nat.{ℕ}
use native.Mathlib.Omega.{arith}

pub data Regex : Type 0 where
  nothing empty : Regex
  class : (ℕ → Bool) → Regex
  seq alt : Regex → Regex → Regex
  star : Regex → Regex

-- `r+` and `r?`
abbrev pub plus : Regex → Regex
plus r = seq r (star r)

abbrev pub optional : Regex → Regex
optional r = alt r empty

abbrev pub literal : ℕ → Regex
literal c = class (λ d. d == c)

pub nullable : Regex → Bool
nullable nothing = false
nullable empty = true
nullable (class p) = false
nullable (seq r q) = nullable r && nullable q
nullable (alt r q) = nullable r || nullable q
nullable (star r) = true

-- What may follow the byte `c`.
pub derivative : ℕ → Regex → Regex
unfolding nullable
derivative c nothing = nothing
derivative c empty = nothing
derivative c (class p) = elim (p c) [ true ↦ empty | false ↦ nothing ]
derivative c (seq r q) = elim (nullable r) [
  | true ↦ alt (seq (derivative c r) q) (derivative c q)
  | false ↦ seq (derivative c r) q
]
derivative c (alt r q) = alt (derivative c r) (derivative c q)
derivative c (star r) = seq (derivative c r) (star r)

unfoldable pub matches : Regex → Bytes → Bool
unfolding nullable derivative
matches r [] = nullable r
matches r (c ∷ s) = matches (derivative c r) s

abbrev pub concat : List Bytes → Bytes
concat [] = []
concat (s ∷ parts) = s ++ concat parts

-- The texts of an expression.
abbrev pub In : Regex → Bytes → Type 0
In nothing s = ⊥
In empty s = s ≡ []
In (class p) s = (c : ℕ) × (s ≡ c ∷ []) × (p c ≡ true)
In (seq r q) s = (a : Bytes) × (b : Bytes) × (s ≡ a ++ b) × In r a × In q b
In (alt r q) s = In r s ⊎ In q s
In (star r) s = (parts : List Bytes) × (s ≡ concat parts) × All (In r) parts

nullable_sound : (r : Regex) → nullable r ≡ true → In r []
unfolding nullable
nullable_sound nothing h = cc
nullable_sound empty h = refl
nullable_sound (class p) h = cc
nullable_sound (seq r q) h = (
  [],
  [],
  refl,
  nullable_sound r ((&&_iff (nullable r) (nullable q)).0 h).0,
  nullable_sound q ((&&_iff (nullable r) (nullable q)).0 h).1,
)
nullable_sound (alt r q) h = elim (Bool-cases (nullable r)) [
  | inl e ↦ inl (nullable_sound r e)
  | inr e ↦ inr (nullable_sound q (ground arith))
]
nullable_sound (star r) h = ([], refl, tt)

append-eq-nil : (a b : Bytes) → a ++ b ≡ [] → (a ≡ []) × (b ≡ [])
append-eq-nil [] b h = (refl, h)
append-eq-nil (x ∷ a) b h = absurd (cc h)

nullable_complete : (r : Regex) (s : Bytes) → s ≡ [] → In r s → nullable r ≡ true
unfolding nullable
nullable_complete nothing s e h = absurd h
nullable_complete empty s e h = refl
nullable_complete (class p) s e (c, single, _) = absurd (cc)
nullable_complete (seq r q) s e (a, b, joined, l, m) =
    let (ea, eb) = append-eq-nil a b (sym joined ∙ e) in
    (&&_iff (nullable r) (nullable q)).1 (nullable_complete r a ea l, nullable_complete q b eb m)
nullable_complete (alt r q) s e (inl h) = ground (arith, nullable_complete r s e h)
nullable_complete (alt r q) s e (inr h) = ground (arith, nullable_complete q s e h)
nullable_complete (star r) s e h = refl

seq_sound :
    (r q d : Regex) (c : ℕ) (s : Bytes)
    → ((t : Bytes) → In d t → In r (c ∷ t))
    → In (seq d q) s
    → In (seq r q) (c ∷ s)
seq_sound r q d c s step (a, b, joined, l, m) = (c ∷ a, b, ap (◌∷◌ c) joined, step a l, m)

derivative_sound : (c : ℕ) (r : Regex) (s : Bytes) → In (derivative c r) s → In r (c ∷ s)
unfolding derivative
derivative_sound c nothing s h = absurd h
derivative_sound c empty s h = absurd h
derivative_sound c (class p) s h = elim (Bool-cases (p c)) [
  | inl e ↦ let h' : s ≡ [] = rw e at h in (c, ap (◌∷◌ c) h', e)
  | inr e ↦ let h' : ⊥ = rw e at h in absurd h'
]
derivative_sound c (seq r q) s h = elim (Bool-cases (nullable r)) [
  | inl e ↦
      let h' : In (alt (seq (derivative c r) q) (derivative c q)) s = rw (e, In) at h in
      elim h' [
        | inl front ↦ seq_sound r q (derivative c r) c s (derivative_sound c r) front
        | inr back ↦ ([], c ∷ s, refl, nullable_sound r e, derivative_sound c q s back)
      ]
  | inr e ↦
      let h' : In (seq (derivative c r) q) s = rw (e, In) at h in
      seq_sound r q (derivative c r) c s (derivative_sound c r) h'
]
derivative_sound c (alt r q) s (inl h) = inl (derivative_sound c r s h)
derivative_sound c (alt r q) s (inr h) = inr (derivative_sound c q s h)
derivative_sound c (star r) s (a, b, joined, l, (parts, glued, each)) =
    ((c ∷ a) ∷ parts, ap (◌∷◌ c) (joined ∙ ap (◌++◌ a) glued), (derivative_sound c r a l, each))

matches_sound : (r : Regex) (s : Bytes) → matches r s ≡ true → In r s
unfolding matches
matches_sound r [] h = nullable_sound r h
matches_sound r (c ∷ s) h = derivative_sound c r s (matches_sound (derivative c r) s h)

-- A text of `star r` that is not empty begins with a part that is not empty.
abbrev FirstPart : Regex → ℕ → Bytes → Type 0
FirstPart r c s = (a : Bytes) × (b : Bytes) × (s ≡ a ++ b) × In r (c ∷ a) × In (star r) b

first_part :
    (r : Regex) (c : ℕ) (s : Bytes) (parts : List Bytes)
    → c ∷ s ≡ concat parts
    → All (In r) parts
    → FirstPart r c s
first_part r c s [] e each = absurd (cc e)
first_part r c s ([] ∷ parts) e each = first_part r c s parts e each.1
first_part r c s ((d ∷ a) ∷ parts) e each =
    let same : c ≡ d = cc e in
    let rest : s ≡ a ++ concat parts = cc e in
    (a, concat parts, rest, rw same (each.0), (parts, refl, each.1))

derivative_complete : (c : ℕ) (r : Regex) (s : Bytes) → In r (c ∷ s) → In (derivative c r) s
unfolding derivative
derivative_complete c nothing s h = absurd h
derivative_complete c empty s h = absurd (cc h)
derivative_complete c (class p) s (d, single, good) =
    let same : c ≡ d = cc single in
    let rest : s ≡ [] = cc single in
    let here : p c ≡ true = rw same good in rw (here, derivative) rest
derivative_complete c (seq r q) s ([], b, joined, l, m) =
    let back = derivative_complete c q s (subst (In q) (sym joined) m) in
    rw (nullable_complete r [] refl l, derivative) (inr back)
derivative_complete c (seq r q) s (d ∷ a, b, joined, l, m) =
    let same : c ≡ d = cc joined in
    let rest : s ≡ a ++ b = cc joined in
    let front : In (seq (derivative c r) q) s =
      (a, b, rest, derivative_complete c r a (rw same l), m) in
    elim (Bool-cases (nullable r)) [
      | inl e ↦ rw (e, derivative) (inl front)
      | inr e ↦ rw (e, derivative) front
    ]
derivative_complete c (alt r q) s (inl h) = inl (derivative_complete c r s h)
derivative_complete c (alt r q) s (inr h) = inr (derivative_complete c q s h)
derivative_complete c (star r) s (parts, glued, each) =
    let (a, b, joined, l, more) = first_part r c s parts glued each in
    (a, b, joined, derivative_complete c r a l, more)

matches_complete : (r : Regex) (s : Bytes) → In r s → matches r s ≡ true
unfolding matches
matches_complete r [] h = nullable_complete r [] refl h
matches_complete r (c ∷ s) h = matches_complete (derivative c r) s (derivative_complete c r s h)

pub matches_iff : (r : Regex) (s : Bytes) → (matches r s ≡ true) ↔ In r s
matches_iff r s = (matches_sound r s, matches_complete r s)

-- A text of `star (class p)` is a run of bytes that pass `p`.
pub star-class-all : (p : ℕ → Bool) (s : Bytes) → In (star (class p)) s → All (λ c. p c ≡ true) s
star-class-all p s (parts, glued, each) = subst (All (λ c. p c ≡ true)) (sym glued) (go parts each)
  where
    go : (parts : List Bytes) → All (In (class p)) parts → All (λ c. p c ≡ true) (concat parts)
    go [] each = tt
    go (part ∷ parts) ((c, single, good), each) = rw single (good, go parts each)

pub all-star-class : (p : ℕ → Bool) (s : Bytes) → All (λ c. p c ≡ true) s → In (star (class p)) s
all-star-class p [] h = ([], refl, tt)
all-star-class p (c ∷ s) (good, h) =
    let (parts, glued, each) = all-star-class p s h in
    ((c ∷ []) ∷ parts, ap (◌∷◌ c) glued, ((c, refl, good), each))
