-- ===== src/Prelude/Totals.antt =====
-- Sums over the values of a map.
use Prim.Native.Nat.{ℕ, ◌+◌, ◌-◌, ◌<◌}
use mathlib.Core.Path.{◌≡◌, refl}
use mathlib.Core.Option.{none, some}
use mathlib.Core.List.{List, [], ◌∷◌}
use native.Mathlib.Omega.{arith}
use noqeri_registry.Prelude.Assoc.{
  lookup, remove, insert, update, Below, remove_absent, update_above,
}

module _ {ℓ} {V : Type ℓ} (weight : V → ℕ) where
  unfoldable pub total : List (ℕ × V) → ℕ
  total [] = 0
  total ((k, v) ∷ m) = weight v + total m

  pub total-remove :
      (n k : ℕ) (v : V) (m : List (ℕ × V))
      → Below n m
      → lookup k m ≡ some v
      → total (remove k m) + weight v ≡ total m
  unfolding total lookup remove
  total-remove n k v [] b h = cc
  total-remove n k v ((j, w) ∷ m) b h =
      ground (arith, total-remove (j - 1) k v m b.2, remove_absent (j - 1) k m b.2)

  pub total-insert :
      (n k : ℕ) (v : V) (m : List (ℕ × V))
      → Below n m
      → n < k
      → total (insert k v m) ≡ weight v + total m
  unfolding total insert
  total-insert n k v m b h = ground (arith, remove_absent n k m b)

  pub total-update :
      (n k : ℕ) (v v' : V) (m : List (ℕ × V))
      → Below n m
      → lookup k m ≡ some v
      → total (update k v' m) + weight v ≡ total m + weight v'
  unfolding total lookup update
  total-update n k v v' [] b h = cc
  total-update n k v v' ((j, w) ∷ m) b h =
      ground (arith, total-update (j - 1) k v v' m b.2, update_above (j - 1) k v' m b.2)

pub eq-nil_of_lookup {ℓ} : {V : Type ℓ} (m : List (ℕ × V)) → ((k : ℕ) → lookup k m ≡ none) → m ≡ []
unfolding lookup
eq-nil_of_lookup [] h = refl
eq-nil_of_lookup ((k, v) ∷ m) h = ground (arith, h k)
