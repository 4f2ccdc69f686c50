-- ===== src/Registry/Handler/Paging.antt =====
-- The pages of a search.
use native.Mathlib.Nat.{zero-add, suc-add}
use noqeri_registry.Prelude.{
  ℕ, zero, suc, ◌+◌, ◌-◌, ◌≤◌, ◌≡◌, inl, inr, refl, sym, ap, ◌∙◌, List, [], ◌∷◌, ◌++◌, arith,
  length, ltb, leb, leb→le, ltb→lt, Bool-cases,
}
use noqeri_registry.Registry.Archive.{take}
use noqeri_registry.Registry.Handler.{drop, page}

module _ {ℓ} {A : Type ℓ} where
  length-take-le : (n : ℕ) (xs : List A) → length (take n xs) ≤ n
  unfolding take
  length-take-le zero xs = omega arith
  length-take-le (suc n) [] = omega arith
  length-take-le (suc n) (x ∷ xs) = omega (arith, length-take-le n xs)

  take_all : (n : ℕ) (xs : List A) → length xs ≤ n → take n xs ≡ xs
  unfolding take
  take_all zero [] h = refl
  take_all zero (x ∷ xs) h = absurd (omega arith)
  take_all (suc n) [] h = refl
  take_all (suc n) (x ∷ xs) h = ap (◌∷◌ x) (take_all n xs (omega arith))

  length-drop : (n : ℕ) (xs : List A) → length (drop n xs) ≡ length xs - n
  unfolding drop
  length-drop zero xs = omega arith
  length-drop (suc n) [] = omega arith
  length-drop (suc n) (x ∷ xs) = omega (arith, length-drop n xs)

  drop_all : (n : ℕ) (xs : List A) → length xs ≤ n → drop n xs ≡ []
  unfolding drop
  drop_all zero [] h = refl
  drop_all zero (x ∷ xs) h = absurd (omega arith)
  drop_all (suc n) [] h = refl
  drop_all (suc n) (x ∷ xs) h = drop_all n xs (omega arith)

  take-nil : (n : ℕ) → take {A = A} n [] ≡ []
  unfolding take
  take-nil zero = refl
  take-nil (suc n) = refl

  drop-nil : (n : ℕ) → drop {A = A} n [] ≡ []
  unfolding drop
  drop-nil zero = refl
  drop-nil (suc n) = refl

  drop-drop : (n m : ℕ) (xs : List A) → drop (n + m) xs ≡ drop m (drop n xs)
  unfolding drop
  drop-drop zero m xs = rw zero-add
  drop-drop (suc n) m [] = drop-nil (suc n + m) ∙ sym (drop-nil m)
  drop-drop (suc n) m (x ∷ xs) = rw suc-add (drop-drop n m xs)

  take-append-take : (n m : ℕ) (xs : List A) → take n xs ++ take m (drop n xs) ≡ take (n + m) xs
  unfolding take drop
  take-append-take zero m xs = rw zero-add
  take-append-take (suc n) m [] = take-nil m ∙ sym (take-nil (suc n + m))
  take-append-take (suc n) m (x ∷ xs) = rw suc-add (ap (◌∷◌ x) (take-append-take n m xs))

  page-take : (offset limit : ℕ) (xs : List A) → page offset limit xs ≡ take limit (drop offset xs)
  unfolding page
  page-take offset limit xs = elim (Bool-cases (leb (length xs) offset)) [
    | inl beyond ↦ rw (beyond, drop_all offset xs (leb→le _ _ beyond)) (sym (take-nil limit))
    | inr within ↦ elim (Bool-cases (ltb (length xs) (offset + limit))) [
      | inl cut ↦
          rw (within, cut)
            (take_all _ (drop offset xs) (omega (arith, length-drop offset xs))
              ∙ sym (
                  take_all limit (drop offset xs)
                    (omega (arith, length-drop offset xs, ltb→lt _ _ cut))))
      | inr whole ↦
          let same_limit : offset + limit - offset ≡ limit = omega arith in
          rw (within, whole, same_limit) refl
    ]
  ]

-- A page has at most as many results as were asked for. Two pages of which the second starts where
-- the first ends are one page of both lengths, and the page from 0 to the count is all the results,
-- so that following the pages meets each result once and in its order.
pub page_partition {ℓ} :
    {A : Type ℓ} (offset limit more : ℕ) (results : List A)
    → (length (page offset limit results) ≤ limit)
      × (page offset limit results ++ page (offset + limit) more results
          ≡ page offset (limit + more) results)
      × (page 0 (length results) results ≡ results)
unfolding drop
page_partition offset limit more results = (
  rw (page-take offset limit results) (length-take-le limit (drop offset results)),
  rw
      (
        page-take offset limit results,
        page-take (offset + limit) more results,
        page-take offset (limit + more) results,
        drop-drop offset limit results,
      )
      (take-append-take limit more (drop offset results)),
  rw (page-take 0 (length results) results) (take_all (length results) results (omega arith)),
)
