-- ===== src/Registry/Tests/Archives.antt =====
-- Archives of the tests, and the cache.
use mathlib.Core.List.{Perm, Nodup, Nodup-cons, Pairwise, mem-cons, not-mem-nil}
use mathlib.Core.Logic.Or
use mathlib.Core.List.Perm
use noqeri_registry.Prelude.{◌≡◌, refl, List, [], ◌∷◌, some, map}
use noqeri_registry.Prelude.Text.{
  codes, split, cut, has_prefix, has_suffix, contains_any, contains_byte, str_eq,
}
use noqeri_registry.Prelude.Fallible.{ok}
use noqeri_registry.Prelude.Order.{list_order, nat_order}
use noqeri_registry.Prelude.Sort.{sort, sort_onto, sink, unwind, IsSorted}
use noqeri_registry.Registry.Relative.{safe_relative, is_dots}
use noqeri_registry.Registry.Manifest.{
  find_entry, match_entry, find_dependencies, dependency_map, match_dependency, skip_blanks, expect,
  span, run, line_end,
}
use noqeri_registry.Registry.Catalog.{join}
use noqeri_registry.Registry.Archive.{
  File, directory, build_archive, archive_of, walk_dir, visit, visit_kind, visit_file,
  visit_directory, count_byte, take, has_smaller_name, find_file, header_of, hex_encode, hex_byte,
  get_artifact, cached, keep,
}
use noqeri_registry.Registry.Archive.Walks.{regular_files}
use noqeri_registry.Registry.Archive.Built.{
  AreBounded, IsArchive, name_of, build_archive-IsArchive, build_archive_deterministic,
}
use noqeri_registry.Registry.Archive.Cached
use noqeri_registry.Registry.Archive.Cached.{Call, IsBuilt, get_artifact-IsBuilt}
use noqeri_registry.Registry.Tests.Fixtures.{
  tree, other_tree, packer, lay_out, artifact, trees, new_release, old_release,
}

building : Unit {0}
unfolding packer lay_out trees codes build_archive archive_of walk_dir visit visit_kind visit_file
    visit_directory count_byte take has_smaller_name find_file header_of hex_encode hex_byte
    list_order nat_order sort sort_onto sink unwind safe_relative is_dots split cut has_prefix
    has_suffix contains_any contains_byte str_eq find_entry match_entry find_dependencies
    dependency_map match_dependency skip_blanks expect span run line_end
building = tt

unfoldable pub caching : Unit {0}
unfolding building join get_artifact cached keep Cached.run
caching = tt

built : build_archive packer tree ≡ ok artifact
unfolding building
built = refl

other_built : build_archive packer other_tree ≡ ok artifact
unfolding building
other_built = refl

build_archive-IsArchive_example :
    (tree.root ≡ some directory)
    × AreBounded (regular_files tree.visits)
    × ((files : List File) × Perm files (regular_files tree.visits)
        × IsSorted has_smaller_name files
        × IsArchive packer files artifact)
build_archive-IsArchive_example = build_archive-IsArchive packer tree artifact built

distinct : Nodup (map name_of (regular_files tree.visits))
unfolding regular_files codes
distinct = Nodup-cons.1 (
  λ m. Or.elim (λ x y. absurd x) (mem-cons.0 m) (λ e. cc e) not-mem-nil,
  Nodup-cons.1 (not-mem-nil, Pairwise.nil),
)

reordered : Perm (regular_files tree.visits) (regular_files other_tree.visits)
unfolding regular_files codes
reordered = Perm.swap _ _ _

build_archive_deterministic_example : artifact ≡ artifact
build_archive_deterministic_example =
    build_archive_deterministic packer tree other_tree artifact artifact distinct reordered built
      other_built

abbrev call : Call
call = record { files = trees; root = codes "/srv"; release = new_release }

-- The same call when the files are gone.
abbrev later : Call
later = record { files = λ path. other_tree; root = codes "/srv"; release = new_release }

got :
    (get_artifact packer call.files call.root call.release (Cached.run packer [] [])).0
    ≡ ok artifact
unfolding caching
got = refl

-- Between the two calls a release is asked for that has no files.
get_artifact-IsBuilt_example :
    IsBuilt packer (call ∷ []) (new_release.path, artifact)
    × ((get_artifact packer later.files later.root later.release (
          Cached.run packer
            (record { files = trees; root = codes "/srv"; release = old_release } ∷ [])
            (get_artifact packer call.files call.root call.release (Cached.run packer [] [])).1)).0
        ≡ ok artifact)
get_artifact-IsBuilt_example =
    get_artifact-IsBuilt packer []
      (record { files = trees; root = codes "/srv"; release = old_release } ∷ []) call later
      artifact got refl
