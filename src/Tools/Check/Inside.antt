-- ===== src/Tools/Check/Inside.antt =====
-- What checkRelease assures of a release.
use noqeri_registry.Prelude.{
  or-false, not-true, ◌≡◌, refl, true, false, not, ◌||◌, List, [], ◌∷◌, Option, none, some, All,
}
use noqeri_registry.Prelude.Text.{Bytes, codes, has_prefix, has_suffix, contains_byte}
use noqeri_registry.Prelude.Fallible.{ok, err, >>=-eq-ok, >>-eq-ok, refuse-eq-ok}
use noqeri_registry.Prelude.Paths.{
  locate, parent, path_text, relative_path, IsInside, relative_path-IsInside,
}
use noqeri_registry.Registry.Archive.{directory, symlink, regular, other}
use noqeri_registry.Tools.Imports.{has_legacy, find_imports}
use noqeri_registry.Tools.Check.{
  Visit, failure, entry, Ground, unreadable, legacy_reference, legacy_extension, unsafe_import,
  import_outside, missing_import, manifest_unreadable, is_none, is_source, import_target,
  check_import, check_imports, check_text, check_file, check_visit, check_visits, check_release,
}

module _ (g : Ground) (root : Bytes) where
  -- An import that begins with a dot leads to a path that exists, at or below the directory that the
  -- release stands in.
  pub record IsKept (path ref : Bytes) : Type 0 where
    pub no_backslash : contains_byte b'\\' ref ≡ false
    pub inside : IsInside (parent (locate root)) (import_target path ref)
    pub there : g.exists (path_text (import_target path ref)) ≡ true

  -- Every import of a source is kept, if it begins with a dot.
  abbrev pub AreKept : Bytes → List Bytes → Type 0
  AreKept path [] = Unit
  AreKept path (ref ∷ refs) =
      (has_prefix ref (codes ".") ≡ true → IsKept path ref) × AreKept path refs

  pub record IsClean (path text : Bytes) : Type 0 where
    pub no_legacy : has_legacy text ≡ false
    pub kept : is_source path ≡ true → AreKept path (find_imports 0 false text)

  pub record IsPlain (path : Bytes) (contents : Option Bytes) : Type 0 where
    pub no_nqr : has_suffix path (codes ".nqr") ≡ false
    pub no_nqo : has_suffix path (codes ".nqo") ≡ false
    pub readable :
        (is_source path || has_suffix path (codes ".md")) ≡ true
        → (text : Bytes) × (contents ≡ some text) × IsClean path text

  -- Directories and regular files only.
  abbrev pub IsSound : Visit → Type 0
  IsSound failure = ⊥
  IsSound (entry path symlink contents) = ⊥
  IsSound (entry path directory contents) = Unit
  IsSound (entry path regular contents) = IsPlain path contents
  IsSound (entry path other contents) = ⊥

  check_import-IsKept :
      (path ref : Bytes)
      → check_import g root path ref ≡ ok tt
      → has_prefix ref (codes ".") ≡ true
      → IsKept path ref
  unfolding check_import
  check_import-IsKept path ref h dotted =
      let h0 = rw dotted at h in
      let (plain, h1) = >>-eq-ok (contains_byte b'\\' ref) (unsafe_import ref) _ h0 in
      let (inside, h2) =
        >>-eq-ok
          (has_prefix (relative_path (parent (locate root)) (import_target path ref)) (codes ".."))
          (import_outside ref) _ h1 in
      let there =
        refuse-eq-ok (not (g.exists (path_text (import_target path ref)))) (missing_import ref)
          h2 in
      record {
        no_backslash = plain;
        inside = relative_path-IsInside (parent (locate root)) (import_target path ref) inside;
        there = not-true _ there;
      }

  check_imports-AreKept :
      (path : Bytes) (refs : List Bytes)
      → check_imports g root path refs ≡ ok tt
      → AreKept path refs
  unfolding check_imports
  check_imports-AreKept path [] h = tt
  check_imports-AreKept path (ref ∷ refs) h =
      let (_, h0, h1) = >>=-eq-ok (check_import g root path ref) _ h in
      (check_import-IsKept path ref h0, check_imports-AreKept path refs h1)

  check_text-IsClean : (path text : Bytes) → check_text g root path text ≡ ok tt → IsClean path text
  unfolding check_text
  check_text-IsClean path text h =
      let (fine, h0) = >>-eq-ok (has_legacy text) (legacy_reference path) _ h in
      record { no_legacy = fine; kept = λ source. check_imports-AreKept path _ (rw source at h0) }

  read-IsClean :
      (path : Bytes) (contents : Option Bytes)
      → elim contents [ none ↦ err unreadable | some text ↦ check_text g root path text ] ≡ ok tt
      → (text : Bytes) × (contents ≡ some text) × IsClean path text
  read-IsClean path none h = cc
  read-IsClean path (some text) h = (text, refl, check_text-IsClean path text h)

  check_file-IsPlain :
      (path : Bytes) (contents : Option Bytes)
      → check_file g root path contents ≡ ok tt
      → IsPlain path contents
  unfolding check_file
  check_file-IsPlain path contents h =
      let (fine, h0) =
        >>-eq-ok (has_suffix path (codes ".nqr") || has_suffix path (codes ".nqo"))
          (legacy_extension path) _ h in
      record {
        no_nqr = (or-false _ _ fine).0;
        no_nqo = (or-false _ _ fine).1;
        readable = λ texts. read-IsClean path contents (rw texts at h0);
      }

  check_visit-IsSound : (v : Visit) → check_visit g root v ≡ ok tt → IsSound v
  unfolding check_visit
  check_visit-IsSound failure h = cc
  check_visit-IsSound (entry path symlink contents) h = cc
  check_visit-IsSound (entry path directory contents) h = tt
  check_visit-IsSound (entry path regular contents) h = check_file-IsPlain path contents h
  check_visit-IsSound (entry path other contents) h = cc

  check_visits-IsSound :
      (visits : List Visit) → check_visits g root visits ≡ ok tt → All IsSound visits
  unfolding check_visits
  check_visits-IsSound [] h = tt
  check_visits-IsSound (v ∷ visits) h =
      let (_, h0, h1) = >>=-eq-ok (check_visit g root v) _ h in
      (check_visit-IsSound v h0, check_visits-IsSound visits h1)

-- A release that registryctl passes has a manifest, and consists of directories and regular files,
-- none with a legacy extension. Its sources and documents can be read and name no legacy file, and
-- each import of a source that begins with a dot leads to a path that exists, at or below the
-- directory in which the release stands.
pub check_release-IsSound :
    (g : Ground) (root : Bytes)
    → check_release g root ≡ ok tt
    → (is_none g.manifest ≡ false) × All (IsSound g root) g.visits
unfolding check_release
check_release-IsSound g root h =
    let (there, h0) = >>-eq-ok (is_none g.manifest) manifest_unreadable _ h in
    (there, check_visits-IsSound g root g.visits h0)
