-- ===== src/Prelude/Assoc.antt =====
-- A Go map with integer keys, as an association list with at most one entry for a key.
use Prim.Native.Nat.{ℕ, suc, ◌-◌, ◌≤◌, ◌<◌}
use mathlib.Core.Path.{◌≡◌, refl}
use mathlib.Core.Option.{Option, none, some}
use mathlib.Core.List.{List, [], ◌∷◌}
use native.Mathlib.Omega.{arith}
use noqeri_registry.Prelude.Tests.{◌==◌, if◌then◌else◌}
use noqeri_registry.Prelude.Lists.{length}

module _ {ℓ} {V : Type ℓ} where
  -- `m[k]`, with `none` for the zero value of a missing key
  unfoldable pub lookup : ℕ → List (ℕ × V) → Option V
  lookup k [] = none
  lookup k ((j, v) ∷ m) = if j == k then some v else lookup k m

  -- `delete(m, k)`
  unfoldable pub remove : ℕ → List (ℕ × V) → List (ℕ × V)
  remove k [] = []
  remove k ((j, v) ∷ m) = let rest = remove k m in if j == k then rest else (j, v) ∷ rest

  -- `m[k] = v` for a key that is new or old
  unfoldable pub insert : ℕ → V → List (ℕ × V) → List (ℕ × V)
  unfolding remove
  insert k v m = (k, v) ∷ remove k m

  -- a write through the pointer that `m[k]` holds: the entry keeps its place
  unfoldable pub update : ℕ → V → List (ℕ × V) → List (ℕ × V)
  update k v [] = []
  update k v ((j, w) ∷ m) =
      let rest = update k v m in if j == k then (j, v) ∷ rest else (j, w) ∷ rest

  abbrev pub keys : List (ℕ × V) → List ℕ
  keys [] = []
  keys ((k, v) ∷ m) = k ∷ keys m

  pub lookup-remove :
      (k j : ℕ) (m : List (ℕ × V)) → lookup j (remove k m) ≡ (if k == j then none else lookup j m)
  unfolding lookup remove
  lookup-remove k j [] = ground arith
  lookup-remove k j ((i, v) ∷ m) = ground (arith, lookup-remove k j m)

  pub lookup-insert :
      (k j : ℕ) (v : V) (m : List (ℕ × V))
      → lookup j (insert k v m) ≡ (if k == j then some v else lookup j m)
  unfolding lookup insert
  lookup-insert k j v m = ground (arith, lookup-remove k j m)

  abbrev replaced : V → Option V → Option V
  replaced v none = none
  replaced v (some w) = some v

  lookup-update_any :
      (k j : ℕ) (v : V) (m : List (ℕ × V))
      → lookup j (update k v m) ≡ (if k == j then replaced v (lookup j m) else lookup j m)
  unfolding lookup update
  lookup-update_any k j v [] = ground arith
  lookup-update_any k j v ((i, u) ∷ m) = ground (arith, lookup-update_any k j v m)

  pub lookup-update :
      (k j : ℕ) (v w : V) (m : List (ℕ × V))
      → lookup k m ≡ some w
      → lookup j (update k v m) ≡ (if k == j then some v else lookup j m)
  lookup-update k j v w m h = ground (arith, lookup-update_any k j v m)

  pub keys-update : (k : ℕ) (v : V) (m : List (ℕ × V)) → keys (update k v m) ≡ keys m
  unfolding update
  keys-update k v [] = refl
  keys-update k v ((i, u) ∷ m) = ground (arith, keys-update k v m)

  -- The keys fall along the list and lie in `1 … n`.
  abbrev pub Below : ℕ → List (ℕ × V) → Type 0
  Below n [] = Unit {0}
  Below n ((k, v) ∷ m) = (0 < k) × (k ≤ n) × Below (k - 1) m

  pub Below-mono : (n n' : ℕ) (m : List (ℕ × V)) → n ≤ n' → Below n m → Below n' m
  Below-mono n n' [] h b = tt
  Below-mono n n' ((k, v) ∷ m) h b = (b.0, omega arith, b.2)

  pub remove-Below : (n k : ℕ) (m : List (ℕ × V)) → Below n m → Below n (remove k m)
  unfolding remove
  remove-Below n k [] b = tt
  remove-Below n k ((j, v) ∷ m) b =
      ground (arith, remove-Below (j - 1) k m b.2, Below-mono (j - 1) n (remove k m))

  pub update-Below : (n k : ℕ) (w : V) (m : List (ℕ × V)) → Below n m → Below n (update k w m)
  unfolding update
  update-Below n k w [] b = tt
  update-Below n k w ((j, v) ∷ m) b = ground (arith, update-Below (j - 1) k w m b.2)

  pub lookup_above : (n k : ℕ) (m : List (ℕ × V)) → Below n m → n < k → lookup k m ≡ none
  unfolding lookup
  lookup_above n k [] b h = refl
  lookup_above n k ((j, v) ∷ m) b h = ground (arith, lookup_above (j - 1) k m b.2)

  pub lookup_zero : (n : ℕ) (m : List (ℕ × V)) → Below n m → lookup 0 m ≡ none
  unfolding lookup
  lookup_zero n [] b = refl
  lookup_zero n ((j, v) ∷ m) b = ground (arith, lookup_zero (j - 1) m b.2)

  pub remove_absent : (n k : ℕ) (m : List (ℕ × V)) → Below n m → n < k → remove k m ≡ m
  unfolding remove
  remove_absent n k [] b h = refl
  remove_absent n k ((j, v) ∷ m) b h = ground (arith, remove_absent (j - 1) k m b.2)

  pub length-remove-le : (k : ℕ) (m : List (ℕ × V)) → length (remove k m) ≤ length m
  unfolding remove
  length-remove-le k [] = omega arith
  length-remove-le k ((j, v) ∷ m) = ground (arith, length-remove-le k m)

  pub length-update : (k : ℕ) (w : V) (m : List (ℕ × V)) → length (update k w m) ≡ length m
  unfolding update
  length-update k w [] = refl
  length-update k w ((j, v) ∷ m) = ground (arith, length-update k w m)

  pub update_missing : (k : ℕ) (w : V) (m : List (ℕ × V)) → lookup k m ≡ none → update k w m ≡ m
  unfolding lookup update
  update_missing k w [] h = refl
  update_missing k w ((j, v) ∷ m) h = ground (arith, update_missing k w m)

  pub remove_missing : (k : ℕ) (m : List (ℕ × V)) → lookup k m ≡ none → remove k m ≡ m
  unfolding lookup remove
  remove_missing k [] h = refl
  remove_missing k ((j, v) ∷ m) h = ground (arith, remove_missing k m)

  pub insert-Below :
      (n k : ℕ) (v : V) (m : List (ℕ × V)) → Below n m → n < k → Below k (insert k v m)
  unfolding insert
  insert-Below n k v m b h = (
    omega arith,
    omega arith,
    Below-mono n (k - 1) (remove k m) (omega arith) (remove-Below n k m b),
  )

  pub length-insert : (k : ℕ) (v : V) (m : List (ℕ × V)) → length (insert k v m) ≤ suc (length m)
  unfolding insert
  length-insert k v m = omega (arith, length-remove-le k m)

  pub lookup-le : (n k : ℕ) (v : V) (m : List (ℕ × V)) → Below n m → lookup k m ≡ some v → k ≤ n
  unfolding lookup
  lookup-le n k v [] b h = cc
  lookup-le n k v ((j, w) ∷ m) b h = ground (arith, lookup-le (j - 1) k v m b.2)

  pub update_above : (n k : ℕ) (v : V) (m : List (ℕ × V)) → Below n m → n < k → update k v m ≡ m
  update_above n k v m b h = update_missing k v m (lookup_above n k m b h)
