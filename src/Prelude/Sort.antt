-- ===== src/Prelude/Sort.antt =====
-- `sort.SliceStable`, as the insertion sort that it is on short slices: an element sinks from the
-- end while it is less than its left neighbour. The sorted front is held with its last element first.
use mathlib.Core.List.{List, [], ◌∷◌, ◌++◌, Perm, perm_middle}
use mathlib.Core.List.Perm
use mathlib.Core.Path.{◌≡◌, subst}
use mathlib.Core.Logic.{inl, inr}
use mathlib.Core.Bool.{Bool, true, false}
use noqeri_registry.Prelude.Tests.{Bool-cases, if◌then◌else◌}
use noqeri_registry.Prelude.Lists.{All}

module _ {ℓ} {A : Type ℓ} (less : A → A → Bool) where
  unfoldable pub sink : A → List A → List A
  sink x [] = x ∷ []
  sink x (p ∷ front) = let rest = sink x front in if less x p then p ∷ rest else x ∷ p ∷ front

  unfoldable pub unwind : List A → List A → List A
  unwind [] out = out
  unwind (x ∷ front) out = unwind front (x ∷ out)

  unfoldable pub sort_onto : List A → List A → List A
  unfolding sink unwind
  sort_onto front [] = unwind front []
  sort_onto front (x ∷ xs) = sort_onto (sink x front) xs

  unfoldable pub sort : List A → List A
  unfolding sort_onto
  sort xs = sort_onto [] xs

  sink-perm : (x : A) (front : List A) → Perm (sink x front) (x ∷ front)
  unfolding sink
  sink-perm x [] = Perm.refl _
  sink-perm x (p ∷ front) = elim (Bool-cases (less x p)) [
    | inl down ↦ rw down (Perm.trans (Perm.cons p (sink-perm x front)) (Perm.swap x p front))
    | inr stay ↦ rw stay (Perm.refl _)
  ]

  unwind-perm : (front out : List A) → Perm (unwind front out) (front ++ out)
  unfolding unwind
  unwind-perm [] out = Perm.refl out
  unwind-perm (x ∷ front) out = Perm.trans (unwind-perm front (x ∷ out)) (perm_middle front out)

  sort_onto-perm : (front xs : List A) → Perm (sort_onto front xs) (front ++ xs)
  unfolding sort_onto
  sort_onto-perm front [] = unwind-perm front []
  sort_onto-perm front (x ∷ xs) =
      Perm.trans (sort_onto-perm (sink x front) xs)
        (Perm.trans (Perm.append_right xs (sink-perm x front)) (Perm.symm (perm_middle front xs)))

  pub sort-perm : (xs : List A) → Perm (sort xs) xs
  unfolding sort
  sort-perm xs = sort_onto-perm [] xs

  -- No element is less than its left neighbour.
  abbrev pub Follows : A → List A → Type 0
  Follows x [] = Unit
  Follows x (y ∷ ys) = less y x ≡ false

  abbrev pub IsSorted : List A → Type 0
  IsSorted [] = Unit
  IsSorted (x ∷ xs) = Follows x xs × IsSorted xs

  abbrev Precedes : A → List A → Type 0
  Precedes x [] = Unit
  Precedes x (p ∷ front) = less x p ≡ false

  -- A front with its last element first.
  abbrev IsFront : List A → Type 0
  IsFront [] = Unit
  IsFront (x ∷ front) = Precedes x front × IsFront front

  module _ (asymmetric : (x y : A) → less x y ≡ true → less y x ≡ false) where
    Precedes-sink :
        (p x : A) (front : List A) → less p x ≡ false → Precedes p front → Precedes p (sink x front)
    unfolding sink
    Precedes-sink p x [] h k = h
    Precedes-sink p x (q ∷ front) h k = elim (Bool-cases (less x q)) [
      | inl down ↦ rw down k
      | inr stay ↦ rw stay h
    ]

    sink-IsFront : (x : A) (front : List A) → IsFront front → IsFront (sink x front)
    unfolding sink
    sink-IsFront x [] h = (tt, tt)
    sink-IsFront x (p ∷ front) h = elim (Bool-cases (less x p)) [
      | inl down ↦
          rw down (Precedes-sink p x front (asymmetric x p down) h.0, sink-IsFront x front h.1)
      | inr stay ↦ rw stay (stay, h)
    ]

    unwind-IsSorted :
        (front out : List A)
        → IsFront front
        → IsSorted out
        → ((x : A) (rest : List A) → front ≡ x ∷ rest → Follows x out)
        → IsSorted (unwind front out)
    unfolding unwind
    unwind-IsSorted [] out h k join = k
    unwind-IsSorted (x ∷ []) out h k join = (join x [] (cc), k)
    unwind-IsSorted (x ∷ p ∷ front) out h k join =
        unwind-IsSorted (p ∷ front) (x ∷ out) h.1 (join x (p ∷ front) (cc), k)
          (λ y rest e. subst (λ z. less x z ≡ false) (cc e) h.0)

    sort_onto-IsSorted : (front xs : List A) → IsFront front → IsSorted (sort_onto front xs)
    unfolding sort_onto
    sort_onto-IsSorted front [] h = unwind-IsSorted front [] h tt (λ x rest e. tt)
    sort_onto-IsSorted front (x ∷ xs) h =
        sort_onto-IsSorted (sink x front) xs (sink-IsFront x front h)

    pub sort-IsSorted : (xs : List A) → IsSorted (sort xs)
    unfolding sort
    sort-IsSorted xs = sort_onto-IsSorted [] xs tt

  -- What holds of every element holds of every element of the result.
  module _ {κ} (P : A → Type κ) where
    sink-All : (x : A) (front : List A) → P x → All P front → All P (sink x front)
    unfolding sink
    sink-All x [] h k = (h, tt)
    sink-All x (p ∷ front) h k = elim (Bool-cases (less x p)) [
      | inl down ↦ rw down (k.0, sink-All x front h k.1)
      | inr stay ↦ rw stay (h, k)
    ]

    unwind-All : (front out : List A) → All P front → All P out → All P (unwind front out)
    unfolding unwind
    unwind-All [] out h k = k
    unwind-All (x ∷ front) out h k = unwind-All front (x ∷ out) h.1 (h.0, k)

    sort_onto-All : (front xs : List A) → All P front → All P xs → All P (sort_onto front xs)
    unfolding sort_onto
    sort_onto-All front [] h k = unwind-All front [] h tt
    sort_onto-All front (x ∷ xs) h k = sort_onto-All (sink x front) xs (sink-All x front k.0 h) k.1

    pub sort-All : (xs : List A) → All P xs → All P (sort xs)
    unfolding sort
    sort-All xs h = sort_onto-All [] xs tt h

    -- What holds of every element of the result holds of every element.
    unsink-All : (x : A) (front : List A) → All P (sink x front) → P x × All P front
    unfolding sink
    unsink-All x [] h = h
    unsink-All x (p ∷ front) h = elim (Bool-cases (less x p)) [
      | inl down ↦
          let g = rw down at h in let rest = unsink-All x front g.1 in (rest.0, (g.0, rest.1))
      | inr stay ↦ rw stay at h
    ]

    wind-All : (front out : List A) → All P (unwind front out) → All P front × All P out
    unfolding unwind
    wind-All [] out h = (tt, h)
    wind-All (x ∷ front) out h =
        let rest = wind-All front (x ∷ out) h in ((rest.1.0, rest.0), rest.1.1)

    unsort_onto-All : (front xs : List A) → All P (sort_onto front xs) → All P front × All P xs
    unfolding sort_onto
    unsort_onto-All front [] h = wind-All front [] h
    unsort_onto-All front (x ∷ xs) h =
        let rest = unsort_onto-All (sink x front) xs h in
        let first = unsink-All x front rest.0 in (first.1, (first.0, rest.1))

    pub unsort-All : (xs : List A) → All P (sort xs) → All P xs
    unfolding sort
    unsort-All xs h = (unsort_onto-All [] xs h).1
