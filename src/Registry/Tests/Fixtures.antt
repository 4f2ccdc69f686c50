-- ===== src/Registry/Tests/Fixtures.antt =====
-- The outside world of the registry's tests: a package of two releases, its files, and a packer.
use noqeri_registry.Prelude.{
  ◌%◌, true, false, List, [], ◌∷◌, ◌++◌, none, some, length, if◌then◌else◌,
}
use noqeri_registry.Prelude.Text.{Bytes, codes, str_eq}
use noqeri_registry.Registry.Catalog.{Release, Package, Index, Catalog, Storage}
use noqeri_registry.Registry.Archive.{
  Artifact, Visit, root_again, entry, directory, regular, Header, Packer, Tree,
}
use noqeri_registry.Registry.Handler.{Request, World}

abbrev pub old_release : Release
old_release = record {
  version = codes "0.9.0";
  path = codes "packages/noqeri/demo/0.9.0";
  yanked = true;
  experimental = false;
  quality = [];
  evidence = [];
  migration_from = [];
  replaced_by = [];
}

abbrev pub new_release : Release
new_release = record {
  version = codes "0.10.0";
  path = codes "packages/noqeri/demo/0.10.0";
  yanked = false;
  experimental = false;
  quality = [];
  evidence = [];
  migration_from = [];
  replaced_by = [];
}

abbrev pub demo : List Release → Package
demo releases = record {
  namespace = codes "noqeri";
  name = codes "demo";
  description = codes "A demo";
  versions = releases;
}

abbrev pub index_of : List Release → Index
index_of releases = record {
  protocol = codes "v1";
  package_format = codes "nqpkg-1";
  packages = demo releases ∷ [];
}

-- The index file lists the older release first.
unfoldable pub storage : Storage
unfolding codes
storage = record {
  absolute = λ root. some root;
  read_file = λ name. some (codes "{}");
  unmarshal_index = λ input. some (index_of (old_release ∷ new_release ∷ []));
}

abbrev pub catalog : Catalog
catalog = record {
  root = codes "/srv";
  index = index_of (new_release ∷ old_release ∷ []);
  package_by_id = (codes "noqeri/demo", demo (new_release ∷ old_release ∷ [])) ∷ [];
}

abbrev pub manifest : Bytes
manifest = codes "package {\n entry: \"src/main.noqeri\"\n core: \"noqeri/core@1.0.0\"\n}\n"

abbrev pub file_visit : Bytes → Bytes → Visit
file_visit name contents = entry (record {
  relative = some name;
  stat = some (regular, length contents);
  contents = some contents;
})

abbrev pub source_visit : Visit
source_visit =
    entry (record { relative = some (codes "src"); stat = some (directory, 0); contents = none })

abbrev pub manifest_visit : Visit
manifest_visit = file_visit (codes "package.noqeri") manifest

abbrev pub main_visit : Visit
main_visit = file_visit (codes "src/main.noqeri") (codes "fn main")

abbrev pub tree : Tree
tree = record {
  root = some directory;
  visits = root_again ∷ manifest_visit ∷ source_visit ∷ main_visit ∷ [];
}

-- The same files, met in another order.
abbrev pub other_tree : Tree
other_tree = record {
  root = some directory;
  visits = root_again ∷ source_visit ∷ main_visit ∷ manifest_visit ∷ [];
}

-- A tree of no files.
abbrev pub empty_tree : Tree
empty_tree = record { root = none; visits = [] }

-- Each name with its contents, one after another.
unfoldable pub lay_out : List (Header × Bytes) → Bytes
lay_out [] = []
lay_out ((h, contents) ∷ rest) = h.name ++ contents ++ lay_out rest

-- Not a good digest, but one of bytes: the length.
unfoldable pub packer : Packer
unfolding lay_out
packer = record { pack = λ files. some (lay_out files); sha256 = λ s. length s % 256 ∷ [] }

abbrev pub artifact : Artifact
artifact = record {
  bytes = codes "package.noqeri" ++ manifest ++ codes "src/main.noqeri" ++ codes "fn main";
  digest = codes "65";
  entry = codes "src/main.noqeri";
  dependencies = (codes "core", codes "noqeri/core@1.0.0") ∷ [];
}

unfoldable pub trees : Bytes → Tree
unfolding codes str_eq
trees path = if str_eq path (codes "/srv/packages/noqeri/demo/0.10.0") then tree else empty_tree

unfoldable pub world : World
unfolding codes packer trees
world = record {
  unicode = record { lower = λ s. s; upper = λ s. s; fold_eq = str_eq; trim = λ s. s };
  packer = packer;
  trees = trees;
  static = λ name. none;
  read_file = λ name. none;
  unmarshal_advisories = λ raw. none;
  marshal = λ d. some (codes "{}");
}

abbrev pub download_request : Request
download_request = record {
  method = codes "GET";
  path = codes "/v1/packages/noqeri/demo/0.10.0/download";
  escaped_path = codes "/v1/packages/noqeri/demo/0.10.0/download";
  raw_query = [];
  query = λ key. [];
}
