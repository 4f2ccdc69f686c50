-- ===== src/Prelude/Cutting.antt =====
-- Where `cut` and `split` divide a text.
use noqeri_registry.Prelude.Tests.{◌==◌}
use noqeri_registry.Prelude.Lists.{All}
use noqeri_registry.Prelude.Text.{Bytes, cut, split}
use Prim.Native.Nat.{ℕ}
use mathlib.Core.Path.{◌≡◌, refl}
use mathlib.Core.Bool.{false}
use mathlib.Core.Option.{none, some}
use mathlib.Core.List.{[], ◌∷◌, ◌++◌}
use native.Mathlib.Omega.{arith}

-- The byte does not occur.
abbrev pub Lacks : ℕ → Bytes → Type 0
Lacks sep s = All (λ c. (c == sep) ≡ false) s

module _ (sep : ℕ) where
  pub cut-Lacks : (s : Bytes) → Lacks sep s → cut s sep ≡ none
  unfolding cut
  cut-Lacks [] h = refl
  cut-Lacks (c ∷ s) h = rw (h.0, cut-Lacks s h.1)

  pub cut-append : (a b : Bytes) → Lacks sep a → cut (a ++ sep ∷ b) sep ≡ some (a, b)
  unfolding cut
  cut-append [] b h = ground arith
  cut-append (c ∷ a) b h = rw (h.0, cut-append a b h.1)

  pub split-Lacks : (s : Bytes) → Lacks sep s → split s sep ≡ s ∷ []
  unfolding split
  split-Lacks [] h = refl
  split-Lacks (c ∷ s) h = rw (h.0, split-Lacks s h.1)

  pub split-append : (a b : Bytes) → Lacks sep a → split (a ++ sep ∷ b) sep ≡ a ∷ split b sep
  unfolding split
  split-append [] b h = ground arith
  split-append (c ∷ a) b h = rw (h.0, split-append a b h.1)
