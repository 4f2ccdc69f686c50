-- ===== src/Tools/Batch/Released.antt =====
-- What the index holds after a batch of releases.
use noqeri_registry.Prelude.{
  ◌≡◌, refl, sym, ap, ◌∙◌, Bool, true, not, ◌&&◌, ◌||◌, not-true, Bool-cases, inl, inr, List, [],
  ◌∷◌, ◌++◌, some, map, any, arith, All, length, ◌==◌,
}
use noqeri_registry.Prelude.Text.{Bytes, Unicode, codes, str_eq, str_eq_iff}
use noqeri_registry.Prelude.Fallible.{ok, >>=-eq-ok, >>-eq-ok, >>=-ok, >>-ok, ok-injective}
use noqeri_registry.Prelude.Sort.{sort, unsort-All}
use noqeri_registry.Registry.Catalog.{
  Release, Package, Packages, Index, Catalog, unsupported_format, open_packages, catalog_of,
}
use noqeri_registry.Tools.Names.{is_smaller}
use noqeri_registry.Tools.Upgrade.{Files, read, put, is_held}
use noqeri_registry.Tools.Upgrade.Stored.{read-put, is_held-eq}
use noqeri_registry.Tools.Batch.Texts.{Spec}
use noqeri_registry.Tools.Batch.{
  no_directory, not_written, Batch, Disk, Stage, wrong_count, new_version, is_package, has_version,
  add_version, missing_package, write_file, write_files, release_files, check_spec, release_package,
  release_packages, release_batch,
}
use noqeri_registry.Tools.Batch.Accepted.{add_version-names, open_packages-add}

-- The package is in the index, with a version 0.1.1.
abbrev pub is_released : Bytes → List Package → Bool
is_released n ps = any (λ p. is_package n p && has_version p.versions) ps

has_version-append : (n : Bytes) (vs : List Release) → has_version (vs ++ new_version n ∷ []) ≡ true
unfolding has_version new_version codes str_eq
has_version-append n [] = refl
has_version-append n (v ∷ vs) = ground (arith, has_version-append n vs)

add-is_package : (n m : Bytes) (p : Package) → is_package n (add_version m p) ≡ is_package n p
unfolding is_package
add-is_package n m p = let (space, name) = add_version-names m p in rw (space, name) refl

add-has_version :
    (n : Bytes) (p : Package)
    → is_package n p ≡ true
    → has_version (add_version n p).versions ≡ true
unfolding add_version
add-has_version n p h = elim (Bool-cases (has_version p.versions)) [
  | inl old ↦ rw (h, old) old
  | inr new ↦ rw (h, new) (has_version-append n p.versions)
]

add-keeps :
    (m : Bytes) (p : Package)
    → has_version p.versions ≡ true
    → has_version (add_version m p).versions ≡ true
unfolding add_version
add-keeps m p h = elim (Bool-cases (is_package m p)) [
  | inl this ↦ rw (this, h) h
  | inr other ↦ rw other h
]

released_now :
    (n : Bytes) (ps : List Package)
    → any (is_package n) ps ≡ true
    → is_released n (map (add_version n) ps) ≡ true
released_now n [] h = h
released_now n (p ∷ ps) h =
    ground (arith, add-is_package n n p, add-has_version n p, released_now n ps)

released_still :
    (n m : Bytes) (ps : List Package)
    → is_released n ps ≡ true
    → is_released n (map (add_version m) ps) ≡ true
released_still n m [] h = h
released_still n m (p ∷ ps) h =
    ground (arith, add-is_package n m p, add-keeps m p, released_still n m ps)

abbrev Opens : List Package → Type 0
Opens ps = (r : List Package × Packages) × (open_packages [] ps ≡ ok r)

module _ (u : Unicode) (quote : Bytes → Bytes) (disk : Disk) (license : Bytes) (batch : Batch) where
  -- What one release leaves of the index.
  record IsAdded (n : Bytes) (s s' : Stage) : Type 0 where
    now : is_released n s'.packages ≡ true
    still : (m : Bytes) → is_released m s.packages ≡ true → is_released m s'.packages ≡ true
    accepted : Opens s.packages → Opens s'.packages

  release_package-IsAdded :
      (n : Bytes) (v : Spec) (s s' : Stage)
      → release_package u quote disk license batch n v s ≡ ok s'
      → IsAdded n s s'
  unfolding release_package
  release_package-IsAdded n v s s' h =
      let (_, _, h0) = >>=-eq-ok (check_spec batch n v) _ h in
      let (files, _, h1) =
        >>=-eq-ok (write_files disk (release_files u quote license n v) s.files) _ h0 in
      let (found, h2) = >>-eq-ok (not (any (is_package n) s.packages)) (missing_package n) _ h1 in
      let e =
        ap (λ (x : Stage). x.packages)
          (sym (
            ok-injective (record { files = files; packages = map (add_version n) s.packages }) s'
              h2)) in
      record {
        now = rw e (released_now n s.packages (not-true _ found));
        still = λ m k. rw e (released_still m n s.packages k);
        accepted = λ (r, k). rw e (open_packages-add n [] [] s.packages r (λ id. refl) k);
      }

  -- The same of one release after another.
  release_packages-IsReleased :
      (specs : List (Bytes × Spec)) (s s' : Stage)
      → release_packages u quote disk license batch specs s ≡ ok s'
      → All (λ x. is_released x.0 s'.packages ≡ true) specs
        × ((m : Bytes) → is_released m s.packages ≡ true → is_released m s'.packages ≡ true)
        × (Opens s.packages → Opens s'.packages)
  unfolding release_packages
  release_packages-IsReleased [] s s' h =
      let e = ap (λ (x : Stage). x.packages) (sym (ok-injective s s' h)) in
      (tt, λ m k. rw e k, λ k. rw e k)
  release_packages-IsReleased ((n, v) ∷ specs) s s' h =
      let (s1, h0, h1) = >>=-eq-ok (release_package u quote disk license batch n v s) _ h in
      let a = release_package-IsAdded n v s s1 h0 in
      let (all_now, still, accepted) = release_packages-IsReleased specs s1 s' h1 in
      ((still n a.now, all_now), λ m k. still m (a.still m k), λ k. accepted (a.accepted k))

catalog_of-Opens :
    (root : Bytes) (index : Index) (c : Catalog)
    → catalog_of root index ≡ ok c
    → Opens index.packages
unfolding catalog_of
catalog_of-Opens root index c h =
    let (_, h0) =
      >>-eq-ok
        (not (str_eq index.protocol (codes "v1"))
          || not (str_eq index.package_format (codes "nqpkg-1")))
        unsupported_format _ h in
    let (r, e, _) = >>=-eq-ok (open_packages [] index.packages) _ h0 in (r, e)

catalog_of-Opened :
    (root : Bytes) (index : Index) (c : Catalog) (ps : List Package)
    → catalog_of root index ≡ ok c
    → Opens ps
    → (c' : Catalog) × (catalog_of root (record index { packages = ps }) ≡ ok c')
unfolding catalog_of
catalog_of-Opened root index c ps h (r, e) =
    let (form, _) =
      >>-eq-ok
        (not (str_eq index.protocol (codes "v1"))
          || not (str_eq index.package_format (codes "nqpkg-1")))
        unsupported_format _ h in
    (_, >>-ok _ unsupported_format _ form (>>=-ok (open_packages [] ps) _ r e refl))

abbrev pub index_path : Bytes
index_path = codes "registry/index.json"

-- A file that was written holds what was written.
write_file-read :
    (disk : Disk) (path body : Bytes) (files files' : Files)
    → write_file disk path body files ≡ ok files'
    → read path files' ≡ some body
unfolding write_file
write_file-read disk path body files files' h =
    let (_, h0) = >>-eq-ok (disk.no_directory path) (no_directory path) _ h in
    elim (Bool-cases (is_held (read path files) body)) [
      | inl old ↦
          let e = ok-injective files files' (rw old at h0) in
          rw (sym e) (is_held-eq (read path files) body old)
      | inr new ↦
          let (_, h1) = >>-eq-ok (disk.denied path) (not_written path) _ (rw new at h0) in
          let e = ok-injective (put path body files) files' h1 in
          rw (sym e) (read-put path path body files ∙ rw ((str_eq_iff path path).1 refl) refl)
    ]

-- The index behind a batch that ends well, and the file that holds it.
pub release_batch-Opens :
    (u : Unicode) (quote : Bytes → Bytes) (disk : Disk) (license : Bytes) (batch : Batch)
    (encode : Index → Bytes) (specs : List (Bytes × Spec)) (index index' : Index)
    (files files' : Files) (root : Bytes) (c : Catalog)
    → catalog_of root index ≡ ok c
    → release_batch u quote disk license batch encode specs index files ≡ ok (files', index')
    → All (λ x. is_released x.0 index'.packages ≡ true) specs
      × ((c' : Catalog) × (catalog_of root index' ≡ ok c'))
      × (read index_path files' ≡ some (encode index' ++ b'\n' ∷ []))
unfolding release_batch
release_batch-Opens u quote disk license batch encode specs index index' files files' root c k h =
    let order = λ (a b : Bytes × Spec). is_smaller a.0 b.0 in
    let (_, h0) = >>-eq-ok (not (length specs == batch.count)) wrong_count _ h in
    let (done, h1, h2) =
      >>=-eq-ok
        (release_packages u quote disk license batch (sort order specs)
          (record { files = files; packages = index.packages }))
        _ h0 in
    let result = record index { packages = done.packages } in
    let (written, w, h3) =
      >>=-eq-ok (write_file disk index_path (encode result ++ b'\n' ∷ []) done.files) _ h2 in
    let e =
      ap (λ (x : Files × Index). x.1) (sym (ok-injective (written, result) (files', index') h3)) in
    let (now, _, accepted) =
      release_packages-IsReleased u quote disk license batch (sort order specs)
        (record { files = files; packages = index.packages }) done h1 in
    let file =
      ap (λ (x : Files × Index). x.0) (sym (ok-injective (written, result) (files', index') h3)) in
    let index_read : read index_path files' ≡ some (encode index' ++ b'\n' ∷ []) =
      rw (file, e)
        (write_file-read disk index_path (encode result ++ b'\n' ∷ []) done.files written w) in
    (
      rw e (unsort-All order (λ x. is_released x.0 done.packages ≡ true) specs now),
      rw e (
          catalog_of-Opened root index c done.packages k
            (accepted (catalog_of-Opens root index c k))),
      index_read,
    )
