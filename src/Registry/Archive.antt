-- ===== src/Registry/Archive.antt =====
-- BuildArchive and ArtifactCache of internal/registry/archive.go. The file system shows in what
-- Lstat says of the root and in the calls that filepath.WalkDir makes; the tar and gzip writers and
-- SHA-256 are arguments.
pub mod Walks
pub mod Built
pub mod Cached
use noqeri_registry.Prelude.{
  ℕ, zero, suc, ◌+◌, ◌-◌, ◌*◌, ◌/◌, ◌%◌, ◌^◌, Bool, true, false, not, ◌||◌, List, [], ◌∷◌, ◌++◌,
  Option, none, some, length, leb, ltb, ◌==◌, if◌then◌else◌, any, map,
}
use noqeri_registry.Prelude.Text.{Bytes, codes, str_eq, has_prefix, has_suffix}
use noqeri_registry.Prelude.Fallible.{Fallible, ok, err, ◌>>=◌, ◌>>◌, refuse}
use noqeri_registry.Prelude.Order.{below, nat_order, list_order}
use noqeri_registry.Prelude.Sort.{sort}
use noqeri_registry.Registry.Relative.{safe_relative}
use noqeri_registry.Registry.Manifest.{find_entry, find_dependencies, dependency_map}
use noqeri_registry.Registry.Catalog.{Release, join}

abbrev pub max_archive_files : ℕ
max_archive_files = 256

abbrev pub max_archive_bytes : ℕ
max_archive_bytes = 8 * 2 ^ 20

pub record Artifact : Type 0 where
  pub bytes : Bytes
  pub digest : Bytes
  pub entry : Bytes
  pub dependencies : List (Bytes × Bytes)

pub record File : Type 0 where
  pub name : Bytes
  pub contents : Bytes

pub data Kind : Type 0 where
  directory symlink regular other : Kind

-- What the callback of WalkDir meets: an error, the root again, or an entry with what filepath.Rel
-- and ToSlash make of its name, what Lstat says (a kind and a size), and what the file holds, `none`
-- where it cannot be opened or read.
pub record Entry : Type 0 where
  pub relative : Option Bytes
  pub stat : Option (Kind × ℕ)
  pub contents : Option Bytes

pub data Visit : Type 0 where
  failure root_again : Visit
  entry : Entry → Visit

-- The errors that BuildArchive and Get return.
pub data ArchiveError : Type 0 where
  stat_failed not_a_directory walk_failed relative_failed unsafe_name link_forbidden : ArchiveError
  nesting_exceeded not_regular limit_exceeded read_failed : ArchiveError
  manifest_missing invalid_entry entry_missing pack_failed archive_too_large : ArchiveError
  unsafe_release_path : ArchiveError

abbrev pub Building {ℓ} : Type ℓ → Type ℓ
Building = Fallible ArchiveError

abbrev pub or_fail {ℓ} : {A : Type ℓ} → Option A → ArchiveError → Building A
or_fail none e = err e
or_fail (some a) e = ok a

-- The variables that the callback changes.
pub record Walk : Type 0 where
  pub files : List File
  pub size : ℕ
  pub directories : ℕ

abbrev pub no_walk : Walk
no_walk = record { files = []; size = 0; directories = 0 }

-- `strings.Count(s, "/")`
unfoldable pub count_byte : ℕ → Bytes → ℕ
count_byte c [] = 0
count_byte c (d ∷ s) = let rest = count_byte c s in if d == c then suc rest else rest

-- What a limited reader gives of a file.
unfoldable pub take {ℓ} : {A : Type ℓ} → ℕ → List A → List A
take zero xs = []
take (suc n) [] = []
take (suc n) (x ∷ xs) = x ∷ take n xs

unfoldable pub visit_directory : Bytes → Walk → Building Walk
unfolding count_byte
visit_directory rel w = do
  refuse (ltb 256 (w.directories + 1) || ltb 12 (count_byte b'/' rel)) nesting_exceeded
  ok (record w { directories = w.directories + 1 })

unfoldable pub visit_file : Bytes → ℕ → Option Bytes → Walk → Building Walk
visit_file rel size contents w = do
  refuse (leb max_archive_files (length w.files) || ltb (max_archive_bytes - w.size) size)
      limit_exceeded
  whole ← or_fail contents read_failed
  let raw = take (suc (max_archive_bytes - w.size)) whole
  refuse (ltb (max_archive_bytes - w.size) (length raw)) limit_exceeded
  ok (record w {
    files = w.files ++ record { name = rel; contents = raw } ∷ [];
    size = w.size + length raw;
  })

unfoldable pub visit_kind : Kind → Bytes → ℕ → Option Bytes → Walk → Building Walk
visit_kind symlink rel size contents w = err link_forbidden
visit_kind directory rel size contents w = visit_directory rel w
visit_kind regular rel size contents w = visit_file rel size contents w
visit_kind other rel size contents w = err not_regular

-- The callback.
unfoldable pub visit : Visit → Walk → Building Walk
visit failure w = err walk_failed
visit root_again w = ok w
visit (entry e) w = do
  rel ← or_fail e.relative relative_failed
  refuse (not (safe_relative rel)) unsafe_name
  (kind, size) ← or_fail e.stat stat_failed
  visit_kind kind rel size e.contents w

-- WalkDir ends at the first error.
unfoldable pub walk_dir : List Visit → Walk → Building Walk
walk_dir [] w = ok w
walk_dir (v ∷ vs) w = do w' ← visit v w; walk_dir vs w'

unfoldable pub has_smaller_name : File → File → Bool
has_smaller_name f g = elim (list_order nat_order f.name g.name) [ below ↦ true | _ ↦ false ]

-- The contents of the first file of a name.
unfoldable pub find_file : Bytes → List File → Option Bytes
unfolding str_eq
find_file name [] = none
find_file name (f ∷ fs) = if str_eq f.name name then some f.contents else find_file name fs

abbrev pub is_found : Option Bytes → Bool
is_found none = false
is_found (some s) = true

-- The header of a file in the archive.
pub record Header : Type 0 where
  pub name : Bytes
  pub mode : ℕ
  pub size : ℕ
  pub mod_time : ℕ

unfoldable pub header_of : File → Header × Bytes
header_of f =
    (record { name = f.name; mode = 0o644; size = length f.contents; mod_time = 0 }, f.contents)

unfoldable pub hex_byte : ℕ → ℕ
hex_byte n = if ltb n 10 then b'0' + n else b'a' + (n - 10)

-- `hex.EncodeToString`, and `%x` of a digest
unfoldable pub hex_encode : Bytes → Bytes
unfolding hex_byte
hex_encode [] = []
hex_encode (c ∷ s) = hex_byte (c / 16) ∷ hex_byte (c % 16) ∷ hex_encode s

-- The tar writer in a gzip writer of the best compression with no time, `none` for their errors;
-- and SHA-256.
pub record Packer : Type 0 where
  pub pack : List (Header × Bytes) → Option Bytes
  pub sha256 : Bytes → Bytes

-- BuildArchive behind the walk, of the sorted files.
unfoldable pub archive_of : Packer → List File → Building Artifact
unfolding find_file header_of
archive_of packer files = do
  manifest ← or_fail (find_file (codes "package.noqeri") files) manifest_missing
  name ← or_fail (find_entry false manifest) invalid_entry
  refuse (not (safe_relative name) || not (has_suffix name (codes ".noqeri"))) invalid_entry
  refuse (not (is_found (find_file name files))) entry_missing
  bytes ← or_fail (packer.pack (map header_of files)) pack_failed
  refuse (ltb max_archive_bytes (length bytes)) archive_too_large
  ok (record {
    bytes = bytes;
    digest = hex_encode (packer.sha256 bytes);
    entry = name;
    dependencies = dependency_map [] (find_dependencies 0 true manifest);
  })

-- What Lstat says of the root, and the visits of the walk below it.
pub record Tree : Type 0 where
  pub root : Option Kind
  pub visits : List Visit

abbrev pub is_directory : Kind → Bool
is_directory directory = true
is_directory _ = false

unfoldable pub build_archive : Packer → Tree → Building Artifact
build_archive packer tree = do
  kind ← or_fail tree.root stat_failed
  refuse (not (is_directory kind)) not_a_directory
  w ← walk_dir tree.visits no_walk
  archive_of packer (sort has_smaller_name w.files)

-- The map of the cache, from release paths; the latest entry stands first.
abbrev pub Cache : Type 0
Cache = List (Bytes × Artifact)

unfoldable pub cached : Bytes → Cache → Option Artifact
unfolding str_eq
cached path [] = none
cached path ((p, a) ∷ cache) = if str_eq p path then some a else cached path cache

-- The end of Get: an artifact that could be built is kept.
unfoldable pub keep : Bytes → Building Artifact → Cache → Building Artifact × Cache
keep path (err e) cache = (err e, cache)
keep path (ok a) cache = (ok a, (path, a) ∷ cache)

-- Get. The file system is given as the tree under each path.
unfoldable pub get_artifact :
    Packer → (Bytes → Tree) → Bytes → Release → Cache → Building Artifact × Cache
unfolding cached keep
get_artifact packer files root release cache = elim (cached release.path cache) [
  | some a ↦ (ok a, cache)
  | none ↦
      if not (has_prefix release.path (codes "packages/")) || not (safe_relative release.path)
      then (err unsafe_release_path, cache)
      else keep release.path (build_archive packer (files (join root release.path))) cache
]
