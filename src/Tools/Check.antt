-- ===== src/Tools/Check.antt =====
-- cmd/registryctl/main.go: the check of a release and the commands verify and audit. The files are
-- arguments: what filepath.Walk visits, what a file holds, and whether a path exists.
pub mod Inside
pub mod Verified
use noqeri_registry.Prelude.{
  ℕ, zero, ◌+◌, Bool, true, false, not, ◌||◌, List, [], ◌∷◌, Option, none, some, length,
  if◌then◌else◌,
}
use noqeri_registry.Prelude.Text.{
  Bytes, codes, str_eq, has_prefix, has_suffix, contains_byte, split,
}
use noqeri_registry.Prelude.Fallible.{Fallible, ok, err, ◌>>=◌, ◌>>◌, refuse}
use noqeri_registry.Prelude.Paths.{resolve, locate, parent, path_text, relative_path}
use noqeri_registry.Registry.Catalog.{
  Release, Package, Catalog, Storage, OpenError, join, package_id, open_catalog,
}
use noqeri_registry.Registry.Archive.{Kind, directory, symlink, regular, other}
use noqeri_registry.Tools.Imports.{has_legacy, find_imports}

-- What the callback of Walk is given: an error, or a path with its mode. `contents` is what
-- ReadFile gives.
pub data Visit : Type 0 where
  failure : Visit
  entry : Bytes → Kind → Option Bytes → Visit

-- A release on the disk.
pub record Ground : Type 0 where
  pub manifest : Option Bytes
  pub visits : List Visit
  pub exists : Bytes → Bool

-- The errors of checkRelease.
pub data CheckError : Type 0 where
  manifest_unreadable walk_failed symlinks_forbidden unsupported_file unreadable : CheckError
  legacy_extension legacy_reference : Bytes → CheckError
  unsafe_import import_outside missing_import : Bytes → CheckError

abbrev pub Checking : Type 0
Checking = Fallible CheckError (Unit {0})

abbrev pub is_none : Option Bytes → Bool
is_none none = true
is_none (some s) = false

-- Where an import leads from a file.
unfoldable pub import_target : Bytes → Bytes → List Bytes
unfolding resolve parent locate split
import_target path ref = resolve (parent (locate path)) (split ref b'/')

-- One round of the loop over the imports.
unfoldable pub check_import : Ground → Bytes → Bytes → Bytes → Checking
unfolding import_target has_prefix codes contains_byte relative_path parent locate path_text
check_import g root path ref = if not (has_prefix ref (codes ".")) then ok tt else do
  refuse (contains_byte b'\\' ref) (unsafe_import ref)
  refuse (has_prefix (relative_path (parent (locate root)) (import_target path ref)) (codes ".."))
      (import_outside ref)
  refuse (not (g.exists (path_text (import_target path ref)))) (missing_import ref)

unfoldable pub check_imports : Ground → Bytes → Bytes → List Bytes → Checking
unfolding check_import
check_imports g root path [] = ok tt
check_imports g root path (ref ∷ refs) = do
  check_import g root path ref
  check_imports g root path refs

abbrev pub is_source : Bytes → Bool
is_source path = has_suffix path (codes ".noqeri")

unfoldable pub check_text : Ground → Bytes → Bytes → Bytes → Checking
unfolding has_legacy has_suffix codes check_imports find_imports
check_text g root path text = do
  refuse (has_legacy text) (legacy_reference path)
  if is_source path then check_imports g root path (find_imports 0 false text) else ok tt

unfoldable pub check_file : Ground → Bytes → Bytes → Option Bytes → Checking
unfolding has_suffix codes check_text
check_file g root path contents = do
  refuse (has_suffix path (codes ".nqr") || has_suffix path (codes ".nqo")) (legacy_extension path)
  if is_source path || has_suffix path (codes ".md")
      then elim contents [ none ↦ err unreadable | some text ↦ check_text g root path text ]
      else ok tt

-- The callback.
unfoldable pub check_visit : Ground → Bytes → Visit → Checking
unfolding check_file
check_visit g root failure = err walk_failed
check_visit g root (entry path symlink contents) = err symlinks_forbidden
check_visit g root (entry path directory contents) = ok tt
check_visit g root (entry path regular contents) = check_file g root path contents
check_visit g root (entry path other contents) = err unsupported_file

-- Walk ends at the first error.
unfoldable pub check_visits : Ground → Bytes → List Visit → Checking
unfolding check_visit
check_visits g root [] = ok tt
check_visits g root (v ∷ visits) = do check_visit g root v; check_visits g root visits

unfoldable pub check_release : Ground → Bytes → Checking
unfolding check_visits
check_release g root = do
  refuse (is_none g.manifest) manifest_unreadable
  check_visits g root g.visits

pub data CommandError : Type 0 where
  open_failed : OpenError → CommandError
  release_failed : Bytes → Bytes → CheckError → CommandError
  wrong_usage unknown_command : CommandError

-- An error with the release that it is about.
abbrev pub about : Bytes → Bytes → Checking → Fallible CommandError (Unit {0})
about id version (ok _) = ok tt
about id version (err e) = err (release_failed id version e)

-- The two loops of `verify`; `checked` is the count so far.
module _ (files : Bytes → Ground) (root : Bytes) where
  unfoldable pub verify_releases : Bytes → ℕ → List Release → Fallible CommandError ℕ
  unfolding check_release join
  verify_releases id checked [] = ok checked
  verify_releases id checked (r ∷ rs) =
      let rest = verify_releases id (checked + 1) rs in
      let skipped = verify_releases id checked rs in
      if r.yanked
      then skipped
      else (about id r.version (check_release (files (join root r.path)) (join root r.path))
          >>= λ _. rest)

  unfoldable pub verify_packages : ℕ → List Package → Fallible CommandError ℕ
  unfolding verify_releases package_id
  verify_packages checked [] = ok checked
  verify_packages checked (p ∷ ps) = do
    n ← verify_releases (package_id p) checked p.versions
    verify_packages n ps

unfoldable pub count_versions : List Package → ℕ
count_versions [] = 0
count_versions (p ∷ ps) = length p.versions + count_versions ps

-- What the command prints.
pub data Report : Type 0 where
  verified : ℕ → Report
  audited : ℕ → ℕ → Report

unfoldable pub run_command : (Bytes → Ground) → Catalog → Bytes → Fallible CommandError Report
unfolding str_eq codes verify_packages count_versions
run_command files catalog name =
    if str_eq name (codes "verify")
    then (do n ← verify_packages files catalog.root 0 catalog.index.packages; ok (verified n))
    else if str_eq name (codes "audit")
    then ok (audited (length catalog.index.packages) (count_versions catalog.index.packages))
    else err unknown_command

abbrev opened : Fallible OpenError Catalog → Fallible CommandError Catalog
opened (ok c) = ok c
opened (err e) = err (open_failed e)

-- The main function, with the arguments behind its flags.
unfoldable pub registryctl :
    Storage → (Bytes → Ground) → Bytes → List Bytes → Fallible CommandError Report
unfolding open_catalog run_command
registryctl storage files root [] = err wrong_usage
registryctl storage files root (name ∷ more ∷ args) = err wrong_usage
registryctl storage files root (name ∷ []) = do
  catalog ← opened (open_catalog storage root)
  run_command files catalog name
