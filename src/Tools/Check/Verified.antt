-- ===== src/Tools/Check/Verified.antt =====
-- What the command verify counts.
use noqeri_registry.Prelude.{
  ℕ, ◌+◌, ◌≡◌, ◌↔◌, refl, ap, ◌∙◌, false, Bool-cases, inl, inr, List, [], ◌∷◌, arith, All,
  if◌then◌else◌,
}
use noqeri_registry.Prelude.Text.{Bytes}
use noqeri_registry.Prelude.Fallible.{ok, err, >>=-eq-ok, ok-injective}
use noqeri_registry.Registry.Catalog.{Release, Package, join, package_id}
use noqeri_registry.Tools.Check.{
  Ground, Checking, about, check_release, verify_releases, verify_packages,
}

-- The releases that are not yanked.
unfoldable pub count_live : List Release → ℕ
count_live [] = 0
count_live (r ∷ rs) = let rest = count_live rs in if r.yanked then rest else rest + 1

unfoldable pub count_all_live : List Package → ℕ
unfolding count_live
count_all_live [] = 0
count_all_live (p ∷ ps) = count_live p.versions + count_all_live ps

module _ (files : Bytes → Ground) (root : Bytes) where
  -- A release that is not yanked passes.
  abbrev pub IsPassed : Release → Type 0
  IsPassed r =
      r.yanked ≡ false → check_release (files (join root r.path)) (join root r.path) ≡ ok tt

  about-eq-ok : (id version : Bytes) (c : Checking) → about id version c ≡ ok tt → c ≡ ok tt
  about-eq-ok id version (ok _) h = refl
  about-eq-ok id version (err e) h = cc

  verify_releases_sound :
      (id : Bytes) (checked n : ℕ) (rs : List Release)
      → verify_releases files root id checked rs ≡ ok n
      → All IsPassed rs × (n ≡ checked + count_live rs)
  unfolding verify_releases count_live
  verify_releases_sound id checked n [] h = (tt, omega (arith, ok-injective checked n h))
  verify_releases_sound id checked n (r ∷ rs) h = elim (Bool-cases r.yanked) [
    | inl yanked ↦
        let rest = verify_releases_sound id checked n rs (rw yanked at h) in
        ((λ live. cc (yanked, live), rest.0), rw yanked rest.1)
    | inr live ↦
        let (_, passed, more) =
          >>=-eq-ok
            (about id r.version (check_release (files (join root r.path)) (join root r.path)))
            (λ _. verify_releases files root id (checked + 1) rs) (rw live at h) in
        let rest = verify_releases_sound id (checked + 1) n rs more in
        ((λ _. about-eq-ok id r.version _ passed, rest.0), rw live (omega (arith, rest.1)))
  ]

  verify_releases_complete :
      (id : Bytes) (checked : ℕ) (rs : List Release)
      → All IsPassed rs
      → verify_releases files root id checked rs ≡ ok (checked + count_live rs)
  unfolding verify_releases count_live
  verify_releases_complete id checked [] h = ap ok (omega arith)
  verify_releases_complete id checked (r ∷ rs) h = elim (Bool-cases r.yanked) [
    | inl yanked ↦ rw yanked (verify_releases_complete id checked rs h.1)
    | inr live ↦
        rw (live, h.0 live) (verify_releases_complete id (checked + 1) rs h.1 ∙ ap ok (omega arith))
  ]

  -- Every release of a package passes that is not yanked.
  abbrev pub ArePassed : Package → Type 0
  ArePassed p = All IsPassed p.versions

  verify_packages_sound :
      (checked n : ℕ) (ps : List Package)
      → verify_packages files root checked ps ≡ ok n
      → All ArePassed ps × (n ≡ checked + count_all_live ps)
  unfolding verify_packages count_all_live
  verify_packages_sound checked n [] h = (tt, omega (arith, ok-injective checked n h))
  verify_packages_sound checked n (p ∷ ps) h =
      let (m, h0, h1) =
        >>=-eq-ok (verify_releases files root (package_id p) checked p.versions) _ h in
      let first = verify_releases_sound (package_id p) checked m p.versions h0 in
      let rest = verify_packages_sound m n ps h1 in
      ((first.0, rest.0), omega (arith, first.1, rest.1))

  verify_packages_complete :
      (checked : ℕ) (ps : List Package)
      → All ArePassed ps
      → verify_packages files root checked ps ≡ ok (checked + count_all_live ps)
  unfolding verify_packages count_all_live
  verify_packages_complete checked [] h = ap ok (omega arith)
  verify_packages_complete checked (p ∷ ps) h =
      rw (verify_releases_complete (package_id p) checked p.versions h.0)
        (verify_packages_complete (checked + count_live p.versions) ps h.1 ∙ ap ok (omega arith))

-- Verify succeeds exactly if each release that is not yanked passes the check at its own path, and
-- then reports how many these are.
pub verify_packages_iff :
    (files : Bytes → Ground) (root : Bytes) (n : ℕ) (ps : List Package)
    → (verify_packages files root 0 ps ≡ ok n)
      ↔ (All (ArePassed files root) ps × (n ≡ count_all_live ps))
verify_packages_iff files root n ps = (
  λ h. let s = verify_packages_sound files root 0 n ps h in (s.0, omega (arith, s.1)),
  λ (h, e). verify_packages_complete files root 0 ps h ∙ ap ok (omega (arith, e)),
)
