-- ===== src/Tools/Batch.antt =====
-- cmd/releasebatch2/main.go and cmd/releasebatch3/main.go, which are the same program but for the
-- list of packages. The JSON reader and writer, LICENSE and the specifications are arguments. Main
-- works on a map of any values; here the index has the fields that Open reads, each under the key of
-- its tag and with the type of its field. Other keys, which main carries over, are left to the writer,
-- and an index with other types or other spellings of the keys is left out: main panics on the first
-- and does not find the second.
pub mod Texts
pub mod Accepted
pub mod Released
pub mod Reopened
use noqeri_registry.Prelude.{
  ℕ, Bool, true, false, not, ◌&&◌, ◌||◌, List, [], ◌∷◌, ◌++◌, map, any, length, ◌==◌, if◌then◌else◌,
}
use noqeri_registry.Prelude.Text.{Bytes, Unicode, codes, str_eq, has_prefix, contains, split}
use noqeri_registry.Prelude.Fallible.{Fallible, ok, err, ◌>>=◌, ◌>>◌, refuse}
use noqeri_registry.Prelude.Sort.{sort}
use noqeri_registry.Registry.Catalog.{Release, Package, Index}
use noqeri_registry.Tools.Names.{is_smaller}
use noqeri_registry.Tools.Upgrade.{Files, read, put, is_held}
use noqeri_registry.Tools.Batch.Texts.{
  Spec, entry_path, manifest_text, test_text, example_text, api_text, readme_text, notes_text,
}

-- What the two commands differ in.
pub record Batch : Type 0 where
  pub expected : Bytes
  pub count : ℕ

unfoldable pub batch2 : Batch
unfolding codes
batch2 = record {
  expected = codes "csv db dom env fetch firebase fs github glob hex html http-client http-server";
  count = 13;
}

unfoldable pub batch3 : Batch
unfolding codes
batch3 = record {
  expected =
      codes
        "http json jwt neon net openai pgas planetscale postgres rate-limit regex-lite resend retry router security semver sentry sqlite std stripe supabase tailwind";
  count = 22;
}

pub data BatchError : Type 0 where
  wrong_count : BatchError
  incomplete invalid_source missing_package no_directory not_written : Bytes → BatchError

-- The file system: where no directory can be made, and which files cannot be written.
pub record Disk : Type 0 where
  pub no_directory : Bytes → Bool
  pub denied : Bytes → Bool

unfoldable pub write_file : Disk → Bytes → Bytes → Files → Fallible BatchError Files
unfolding read put
write_file disk path body files = do
  refuse (disk.no_directory path) (no_directory path)
  if is_held (read path files) body
      then ok files
      else do refuse (disk.denied path) (not_written path); ok (put path body files)

-- Files one after another.
unfoldable pub write_files : Disk → List (Bytes × Bytes) → Files → Fallible BatchError Files
unfolding write_file
write_files disk [] files = ok files
write_files disk ((path, body) ∷ rest) files = do
  written ← write_file disk path body files
  write_files disk rest written

-- `allowed[n]`, of the fields of a text that single spaces part
abbrev is_allowed : Batch → Bytes → Bool
is_allowed batch n = any (str_eq n) (split batch.expected b' ')

abbrev is_blank_text : Bytes → Bool
is_blank_text s = str_eq s []

unfoldable pub check_spec : Batch → Bytes → Spec → Fallible BatchError (Unit {0})
unfolding str_eq split codes has_prefix contains
check_spec batch n v = do
  refuse
      (not (is_allowed batch n)
        || (is_blank_text v.entry
            || (is_blank_text v.purpose
                || (is_blank_text v.source
                    || (is_blank_text v.regression
                        || (is_blank_text v.example || is_blank_text v.module_name))))))
      (incomplete n)
  refuse
      (not (has_prefix v.source (codes "// SPDX-License-Identifier: MIT"))
        || not (contains v.source (codes "module " ++ v.module_name)))
      (invalid_source n)

abbrev placed : Bytes → Bytes × Bytes → Bytes × Bytes
placed n (name, body) = (codes "packages/noqeri/" ++ (n ++ (codes "/0.1.1/" ++ name)), body)

-- The eight files of a release, in the order in which they are written.
unfoldable pub release_files :
    Unicode → (Bytes → Bytes) → Bytes → Bytes → Spec → List (Bytes × Bytes)
unfolding codes entry_path manifest_text test_text example_text api_text readme_text notes_text
release_files u quote license n v = map (placed n) (
    (codes "package.noqeri", manifest_text quote n v)
    ∷ (codes "LICENSE", license)
    ∷ (entry_path v, v.source)
    ∷ (codes "tests/regression.noqeri", test_text u quote v)
    ∷ (codes "examples/basic.noqeri", example_text u quote v)
    ∷ (codes "API_REFERENCE.md", api_text u n v)
    ∷ (codes "README.md", readme_text u n v)
    ∷ (codes "RELEASE_NOTES.md", notes_text n v)
    ∷ [])

unfoldable pub new_version : Bytes → Release
unfolding codes
new_version n = record {
  version = codes "0.1.1";
  path = codes "packages/noqeri/" ++ (n ++ codes "/0.1.1");
  yanked = false;
  experimental = true;
  quality = codes "experimental";
  evidence = codes "test-contract";
  migration_from = [];
  replaced_by = [];
}

unfoldable pub is_package : Bytes → Package → Bool
unfolding str_eq codes
is_package n p = str_eq p.name n && str_eq p.namespace (codes "noqeri")

unfoldable pub has_version : List Release → Bool
unfolding str_eq codes
has_version [] = false
has_version (r ∷ rs) = str_eq r.version (codes "0.1.1") || has_version rs

-- The body of the loop over the packages of the index.
unfoldable pub add_version : Bytes → Package → Package
unfolding is_package has_version new_version
add_version n p =
    if is_package n p
    then if has_version p.versions
      then p
      else record p { versions = p.versions ++ new_version n ∷ [] }
    else p

-- The files, and the packages of the index.
pub record Stage : Type 0 where
  pub files : Files
  pub packages : List Package

module _ (u : Unicode) (quote : Bytes → Bytes) (disk : Disk) (license : Bytes) (batch : Batch) where
  -- The body of the loop over the names.
  unfoldable pub release_package : Bytes → Spec → Stage → Fallible BatchError Stage
  unfolding check_spec write_files release_files is_package add_version
  release_package n v s = do
    check_spec batch n v
    files ← write_files disk (release_files u quote license n v) s.files
    refuse (not (any (is_package n) s.packages)) (missing_package n)
    ok (record { files = files; packages = map (add_version n) s.packages })

  unfoldable pub release_packages : List (Bytes × Spec) → Stage → Fallible BatchError Stage
  unfolding release_package
  release_packages [] s = ok s
  release_packages ((n, v) ∷ specs) s = do next ← release_package n v s; release_packages specs next

  -- The main function behind its input; `encode` writes the index as JSON.
  unfoldable pub release_batch :
      (Index → Bytes) → List (Bytes × Spec) → Index → Files → Fallible BatchError (Files × Index)
  unfolding release_packages is_smaller sort write_file codes
  release_batch encode specs index files = do
    refuse (not (length specs == batch.count)) wrong_count
    done ←
        release_packages (sort (λ a b. is_smaller a.0 b.0) specs)
          (record { files = files; packages = index.packages })
    let result = record index { packages = done.packages }
    written ← write_file disk (codes "registry/index.json") (encode result ++ b'\n' ∷ []) done.files
    ok (written, result)

-- The two main functions.
unfoldable pub releasebatch2 :
    Unicode
    → (Bytes → Bytes)
    → Disk
    → Bytes
    → (Index → Bytes)
    → List (Bytes × Spec)
    → Index
    → Files
    → Fallible BatchError (Files × Index)
unfolding release_batch batch2
releasebatch2 u quote disk license = release_batch u quote disk license batch2

unfoldable pub releasebatch3 :
    Unicode
    → (Bytes → Bytes)
    → Disk
    → Bytes
    → (Index → Bytes)
    → List (Bytes × Spec)
    → Index
    → Files
    → Fallible BatchError (Files × Index)
unfolding release_batch batch3
releasebatch3 u quote disk license = release_batch u quote disk license batch3
