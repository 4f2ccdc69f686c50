-- ===== src/Prelude/Fallible.antt =====
-- A Go result `(value, error)` of which exactly one is set, and chains of steps that stop at an error.
use mathlib.Core.Path.{◌≡◌, refl, subst}
use mathlib.Core.Logic.{◌⊎◌, inl, inr}
use mathlib.Core.Bool.{Bool, true, false}

pub data Fallible {ℓ} (E : Type 0) (A : Type ℓ) : Type ℓ where
  err : E → Fallible E A
  ok : A → Fallible E A

infixl 5 ◌>>=◌ ◌>>◌
abbrev pub ◌>>=◌ {ℓ κ} :
    {E : Type 0} {A : Type ℓ} {B : Type κ} → Fallible E A → (A → Fallible E B) → Fallible E B
err e >>= next = err e
ok a >>= next = next a

abbrev pub ◌>>◌ {ℓ} :
    {E : Type 0} {B : Type ℓ} → Fallible E (Unit {0}) → Fallible E B → Fallible E B
first >> second = first >>= λ _. second

-- `if test { return errors.New(e) }`
abbrev pub refuse : {E : Type 0} → Bool → E → Fallible E (Unit {0})
refuse true e = err e
refuse false e = ok tt

module _ {E : Type 0} where
  pub Fallible-cases {ℓ} :
      {A : Type ℓ} (r : Fallible E A) → ((a : A) × (r ≡ ok a)) ⊎ ((e : E) × (r ≡ err e))
  Fallible-cases (err e) = inr (e, refl)
  Fallible-cases (ok a) = inl (a, refl)

  -- Inversion of a chain that succeeds.
  pub >>=-eq-ok {ℓ κ} :
      {A : Type ℓ} {B : Type κ} (first : Fallible E A) (next : A → Fallible E B) {b : B}
      → (first >>= next) ≡ ok b
      → (a : A) × (first ≡ ok a) × (next a ≡ ok b)
  >>=-eq-ok (err e) next h = cc
  >>=-eq-ok (ok a) next h = (a, refl, h)

  -- A chain whose first step succeeds.
  pub >>=-ok {ℓ κ} :
      {A : Type ℓ} {B : Type κ} (first : Fallible E A) (next : A → Fallible E B) (a : A)
      {r : Fallible E B}
      → first ≡ ok a
      → next a ≡ r
      → (first >>= next) ≡ r
  >>=-ok first next a h k = rw h k

  -- What follows the first step of a chain.
  pub >>=-next {ℓ κ} :
      {A : Type ℓ} {B : Type κ} (first : Fallible E A) (next : A → Fallible E B) (a : A)
      {r : Fallible E B}
      → first ≡ ok a
      → (first >>= next) ≡ r
      → next a ≡ r
  >>=-next first next a {r} h k = subst (λ s. (s >>= next) ≡ r) h k

  pub >>-eq-ok {ℓ} :
      {B : Type ℓ} (test : Bool) (e : E) (k : Fallible E B) {b : B}
      → (refuse test e >> k) ≡ ok b
      → (test ≡ false) × (k ≡ ok b)
  >>-eq-ok true e k h = cc
  >>-eq-ok false e k h = (refl, h)

  pub >>-ok {ℓ} :
      {B : Type ℓ} (test : Bool) (e : E) (k : Fallible E B) {r : Fallible E B}
      → test ≡ false
      → k ≡ r
      → (refuse test e >> k) ≡ r
  >>-ok test e k h l = rw (h, l) refl

  pub refuse-eq-ok : (test : Bool) (e : E) → refuse test e ≡ ok tt → test ≡ false
  refuse-eq-ok true e h = cc
  refuse-eq-ok false e h = refl

  pub ok-injective {ℓ} : {A : Type ℓ} (a b : A) → ◌≡◌ {A = Fallible E A} (ok a) (ok b) → a ≡ b
  ok-injective a b e = cc
