-- ===== src/Prelude/Affix.antt =====
-- What the prefix and suffix tests say of a text.
use mathlib.Core.Path.{◌≡◌, refl, sym, ap, ◌∙◌}
use mathlib.Core.Logic.{◌⊎◌, inl, inr}
use mathlib.Core.Bool.{true}
use mathlib.Core.List.{[], ◌∷◌, ◌++◌, reverse, reverse-append, reverse-reverse}
use native.Mathlib.Omega.{arith}
use noqeri_registry.Prelude.Text.{Bytes, has_prefix, has_suffix, contains}

pub has_prefix-eq : (s p : Bytes) → has_prefix s p ≡ true → (rest : Bytes) × (s ≡ p ++ rest)
unfolding has_prefix
has_prefix-eq s [] h = (s, refl)
has_prefix-eq [] (c ∷ p) h = absurd (cc h)
has_prefix-eq (d ∷ s) (c ∷ p) h =
    let (rest, e) = has_prefix-eq s p (ground arith) in (rest, ground arith)

pub has_prefix-append : (p rest : Bytes) → has_prefix (p ++ rest) p ≡ true
unfolding has_prefix
has_prefix-append [] rest = refl
has_prefix-append (c ∷ p) rest = ground (arith, has_prefix-append p rest)

-- A suffix test holds exactly where the text is some front followed by the suffix.
pub has_suffix-eq : (s p : Bytes) → has_suffix s p ≡ true → (front : Bytes) × (s ≡ front ++ p)
unfolding has_suffix
has_suffix-eq s p h =
    let (rest, e) = has_prefix-eq (reverse s) (reverse p) h in
    (
      reverse rest,
      sym (reverse-reverse s)
          ∙ ap reverse e
          ∙ reverse-append (reverse p) rest
          ∙ ap (◌++◌ (reverse rest)) (reverse-reverse p),
    )

pub has_suffix-append : (front p : Bytes) → has_suffix (front ++ p) p ≡ true
unfolding has_suffix
has_suffix-append front p =
    rw (reverse-append front p) (has_prefix-append (reverse p) (reverse front))

-- Of two prefixes of one text, one is a prefix of the other.
pub has_prefix-compare :
    (s p q : Bytes)
    → has_prefix s p ≡ true
    → has_prefix s q ≡ true
    → (has_prefix p q ≡ true) ⊎ (has_prefix q p ≡ true)
unfolding has_prefix
has_prefix-compare s p [] h k = inl refl
has_prefix-compare s [] (d ∷ q) h k = inr refl
has_prefix-compare [] (c ∷ p) (d ∷ q) h k = absurd (cc h)
has_prefix-compare (x ∷ s) (c ∷ p) (d ∷ q) h k = ground (arith, has_prefix-compare s p q)

pub has_suffix-compare :
    (s p q : Bytes)
    → has_suffix s p ≡ true
    → has_suffix s q ≡ true
    → (has_suffix p q ≡ true) ⊎ (has_suffix q p ≡ true)
unfolding has_suffix
has_suffix-compare s p q h k = has_prefix-compare (reverse s) (reverse p) (reverse q) h k

contains-empty : (s : Bytes) → contains s [] ≡ true
unfolding contains has_prefix
contains-empty [] = refl
contains-empty (c ∷ s) = refl

-- A text occurs where it begins, and still does behind another.
pub contains-append : (m b : Bytes) → contains (m ++ b) m ≡ true
unfolding contains
contains-append [] b = contains-empty b
contains-append (c ∷ m) b = rw (has_prefix-append (c ∷ m) b) refl

pub contains-behind : (a t m : Bytes) → contains t m ≡ true → contains (a ++ t) m ≡ true
unfolding contains
contains-behind [] t m h = h
contains-behind (c ∷ a) t m h = ground (arith, contains-behind a t m h)
