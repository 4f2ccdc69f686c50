-- ===== src/Prelude/Strict.antt =====
-- A list in a strict order is the only arrangement of its elements in that order.
use mathlib.Core.List.{List, [], ◌∷◌, Perm, Mem, mem-cons, not-mem-nil}
use mathlib.Core.List.Perm
use mathlib.Core.Logic.Or
use mathlib.Core.Path.{◌≡◌, refl, sym, subst, ap₂}
use noqeri_registry.Prelude.Lists.{All}

pub All-mem {ℓ κ} :
    {A : Type ℓ} (P : A → Type κ)
    → ((a : A) → IsProp (P a))
    → (a : A) (xs : List A) → All P xs
    → Mem a xs
    → P a
All-mem P prop a [] h m = absurd (not-mem-nil m)
All-mem P prop a (x ∷ xs) h m =
    Or.elim (prop a) (mem-cons.0 m) (λ e. subst P (sym e) h.0) (All-mem P prop a xs h.1)

module _ {ℓ} {A : Type ℓ} (R : A → A → Type 0) where
  abbrev pub Strictly : List A → Type ℓ
  Strictly [] = Unit
  Strictly (x ∷ xs) = All (R x) xs × Strictly xs

  abbrev Below : A → List A → Type 0
  Below x [] = Unit
  Below x (y ∷ ys) = R x y

  -- Each element is below its right neighbour.
  abbrev pub IsChain : List A → Type 0
  IsChain [] = Unit
  IsChain (x ∷ xs) = Below x xs × IsChain xs

  module _ (trans : (x y z : A) → R x y → R y z → R x z) (asym : (x y : A) → R x y → R y x → ⊥)
      (set : IsSet A) (prop : (x y : A) → IsProp (R x y)) where
    All-below : (x y : A) (zs : List A) → R x y → All (R y) zs → All (R x) zs
    All-below x y [] h k = tt
    All-below x y (z ∷ zs) h k = (trans x y z h k.0, All-below x y zs h k.1)

    pub IsChain-Strictly : (xs : List A) → IsChain xs → Strictly xs
    IsChain-Strictly [] h = tt
    IsChain-Strictly (x ∷ []) h = (tt, tt)
    IsChain-Strictly (x ∷ y ∷ zs) h =
        let rest = IsChain-Strictly (y ∷ zs) h.1 in ((h.0, All-below x y zs h.0 rest.0), rest)

    same_head :
        (x y : A) (xs ys : List A)
        → All (R x) xs
        → All (R y) ys
        → Mem x (y ∷ ys)
        → Mem y (x ∷ xs)
        → x ≡ y
    same_head x y xs ys h k mx my =
        Or.elim (set x y) (mem-cons.0 mx) (λ e. e)
          λ deep_x.
            Or.elim (set x y) (mem-cons.0 my) (λ e. sym e)
              λ deep_y. absurd (
                asym x y (All-mem (R x) (prop x) y xs h deep_y)
                  (All-mem (R y) (prop y) x ys k deep_x))

    pub Strictly-unique : (xs ys : List A) → Perm xs ys → Strictly xs → Strictly ys → xs ≡ ys
    Strictly-unique [] ys p h k = sym (Perm.eq-nil (Perm.symm p))
    Strictly-unique (x ∷ xs) [] p h k = absurd (cc (Perm.eq-nil p))
    Strictly-unique (x ∷ xs) (y ∷ ys) p h k =
        let e =
          same_head x y xs ys h.0 k.0 ((Perm.mem_iff p).0 (mem-cons.1 (Or.inl refl)))
            ((Perm.mem_iff p).1 (mem-cons.1 (Or.inl refl))) in
        let rest = Perm.cons_inv (subst (λ z. Perm (z ∷ xs) (y ∷ ys)) e p) in
        ap₂ ◌∷◌ e (Strictly-unique xs ys rest h.1 k.1)
