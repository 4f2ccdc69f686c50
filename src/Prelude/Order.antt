-- ===== src/Prelude/Order.antt =====
-- Comparisons that answer -1, 0 or 1, and their composition key by key.
use Prim.Native.Nat.{ℕ}
use mathlib.Core.Path.{◌≡◌, refl, ap}
use mathlib.Core.Option.{Option, none, some}
use mathlib.Core.List.{List, [], ◌∷◌}
use native.Mathlib.Omega.{arith}
use noqeri_registry.Prelude.Tests.{ltb, if◌then◌else◌}

pub data Sign : Type 0 where
  below same above : Sign

abbrev pub flip : Sign → Sign
flip below = above
flip same = same
flip above = below

-- The second answer counts where the first is `same`.
abbrev pub then_by : Sign → Sign → Sign
then_by below t = below
then_by same t = t
then_by above t = above

-- A total order, told by its comparison.
pub record IsOrder {ℓ} {A : Type ℓ} (order : A → A → Sign) : Type ℓ where
  pub reflexive : (a : A) → order a a ≡ same
  pub exact : (a b : A) → order a b ≡ same → a ≡ b
  pub mirrored : (a b : A) → order b a ≡ flip (order a b)
  pub transitive : (a b c : A) → order a b ≡ below → order b c ≡ below → order a c ≡ below

unfoldable pub nat_order : ℕ → ℕ → Sign
nat_order a b = if ltb a b then below else if ltb b a then above else same

pub nat_order-IsOrder : IsOrder nat_order
unfolding nat_order
nat_order-IsOrder = record {
  reflexive = λ a. ground arith;
  exact = λ a b h. ground arith;
  mirrored = λ a b. ground arith;
  transitive = λ a b c h k. ground arith;
}

module _ {ℓ} {A : Type ℓ} (order : A → A → Sign) where
  -- `none` is the greatest.
  unfoldable pub option_order : Option A → Option A → Sign
  option_order none none = same
  option_order none (some b) = above
  option_order (some a) none = below
  option_order (some a) (some b) = order a b

  -- Lexicographic; a proper prefix is below.
  unfoldable pub list_order : List A → List A → Sign
  list_order [] [] = same
  list_order [] (_ ∷ _) = below
  list_order (_ ∷ _) [] = above
  list_order (a ∷ xs) (b ∷ ys) = then_by (order a b) (list_order xs ys)

  module _ (law : IsOrder order) where
    pub list_order-same : (xs ys : List A) → list_order xs ys ≡ same → xs ≡ ys
    unfolding list_order
    list_order-same [] [] h = refl
    list_order-same [] (b ∷ ys) h = cc
    list_order-same (a ∷ xs) [] h = cc
    list_order-same (a ∷ xs) (b ∷ ys) h = ground (arith, law.exact a b, list_order-same xs ys)

    list_order-mirrored : (xs ys : List A) → list_order ys xs ≡ flip (list_order xs ys)
    unfolding list_order
    list_order-mirrored [] [] = refl
    list_order-mirrored [] (b ∷ ys) = refl
    list_order-mirrored (a ∷ xs) [] = refl
    list_order-mirrored (a ∷ xs) (b ∷ ys) =
        ground (arith, law.mirrored a b, list_order-mirrored xs ys)

    list_order-reflexive : (xs : List A) → list_order xs xs ≡ same
    unfolding list_order
    list_order-reflexive [] = refl
    list_order-reflexive (a ∷ xs) = ground (arith, law.reflexive a, list_order-reflexive xs)

    list_order-transitive :
        (xs ys zs : List A)
        → list_order xs ys ≡ below
        → list_order ys zs ≡ below
        → list_order xs zs ≡ below
    unfolding list_order
    list_order-transitive [] [] [] h k = cc
    list_order-transitive [] (b ∷ ys) [] h k = cc
    list_order-transitive [] ys (c ∷ zs) h k = refl
    list_order-transitive (a ∷ xs) [] zs h k = cc
    list_order-transitive (a ∷ xs) (b ∷ ys) [] h k = cc
    list_order-transitive (a ∷ xs) (b ∷ ys) (c ∷ zs) h k =
        ground (
          arith,
          law.exact a b,
          law.exact b c,
          law.transitive a b c,
          list_order-transitive xs ys zs,
        )

    pub list_order-IsOrder : IsOrder list_order
    list_order-IsOrder = record {
      reflexive = list_order-reflexive;
      exact = list_order-same;
      mirrored = list_order-mirrored;
      transitive = list_order-transitive;
    }

    pub option_order-IsOrder : IsOrder option_order
    unfolding option_order
    option_order-IsOrder = record {
      reflexive = elim [ none ↦ refl | some a ↦ law.reflexive a ];
      exact = go_exact;
      mirrored = go_mirrored;
      transitive = go_transitive;
    }
      where
        go_exact : (a b : Option A) → option_order a b ≡ same → a ≡ b
        go_exact none none h = refl
        go_exact none (some b) h = cc
        go_exact (some a) none h = cc
        go_exact (some a) (some b) h = ap some (law.exact a b h)

        go_mirrored : (a b : Option A) → option_order b a ≡ flip (option_order a b)
        go_mirrored none none = refl
        go_mirrored none (some b) = refl
        go_mirrored (some a) none = refl
        go_mirrored (some a) (some b) = law.mirrored a b

        go_transitive :
            (a b c : Option A)
            → option_order a b ≡ below
            → option_order b c ≡ below
            → option_order a c ≡ below
        go_transitive none none c h k = cc
        go_transitive none (some b) c h k = cc
        go_transitive (some a) none none h k = cc
        go_transitive (some a) none (some c) h k = cc
        go_transitive (some a) (some b) none h k = refl
        go_transitive (some a) (some b) (some c) h k = law.transitive a b c h k

-- The first key decides, then the second.
unfoldable pub pair_order {ℓ κ} :
    {A : Type ℓ} {B : Type κ} → (A → A → Sign) → (B → B → Sign) → A × B → A × B → Sign
pair_order f g (a, b) (c, d) = then_by (f a c) (g b d)

pub pair_order-IsOrder {ℓ κ} :
    {A : Type ℓ} {B : Type κ} (f : A → A → Sign) (g : B → B → Sign)
    → IsOrder f
    → IsOrder g
    → IsOrder (pair_order f g)
unfolding pair_order
pair_order-IsOrder f g lf lg = record {
  reflexive = λ (a, b). ground (arith, lf.reflexive a, lg.reflexive b);
  exact = λ (a, b) (c, d) h. ground (arith, lf.exact a c, lg.exact b d);
  mirrored = λ (a, b) (c, d). ground (arith, lf.mirrored a c, lg.mirrored b d);
  transitive = λ (a, b) (c, d) (x, y) h k.
      ground (arith, lf.exact a c, lf.exact c x, lf.transitive a c x, lg.transitive b d y);
}
