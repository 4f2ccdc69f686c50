-- ===== src/Registry/Archive/Built.antt =====
-- What BuildArchive returns, and that it depends on the files of the tree alone.
use mathlib.Core.List.{Perm, Nodup, Nodup-cons, mem-cons}
use mathlib.Core.List.Perm
use mathlib.Core.Logic.Or
use noqeri_registry.Prelude.{
  both-true, not-true, ◌≤◌, ◌≡◌, ◌≢◌, refl, sym, ap, ◌∙◌, subst, true, false, not, ◌||◌, List, [],
  ◌∷◌, some, length, ltb, ltb-false, arith, All, map,
}
use noqeri_registry.Prelude.Text.{Bytes, codes, has_suffix}
use noqeri_registry.Prelude.Fallible.{ok, >>-eq-ok, >>=-eq-ok, ok-injective}
use noqeri_registry.Prelude.Order.{
  Sign, below, same, IsOrder, nat_order, nat_order-IsOrder, list_order, list_order-IsOrder,
}
use noqeri_registry.Prelude.Sort.{sort, sort-perm, sort-IsSorted, IsSorted}
use noqeri_registry.Prelude.Strict.{IsChain, IsChain-Strictly, Strictly-unique}
use noqeri_registry.Registry.Relative.{safe_relative}
use noqeri_registry.Registry.Manifest.{find_entry, find_dependencies, dependency_map}
use noqeri_registry.Registry.Archive.{
  File, Kind, directory, manifest_missing, invalid_entry, entry_missing, pack_failed,
  archive_too_large, stat_failed, not_a_directory, or_fail, no_walk, max_archive_files,
  max_archive_bytes, walk_dir, has_smaller_name, find_file, is_found, header_of, hex_encode, Packer,
  Artifact, archive_of, Tree, is_directory, build_archive,
}
use noqeri_registry.Registry.Archive.Walks.{
  total_bytes, regular_files, or_fail-eq-ok, walk_dir-IsBounded,
}

name-IsOrder : IsOrder (list_order nat_order)
name-IsOrder = list_order-IsOrder nat_order nat_order-IsOrder

-- An archive of files in their order: its manifest and entry are among them, its bytes are those
-- of the packed files, and its digest is that of its bytes.
pub record IsArchive (packer : Packer) (files : List File) (a : Artifact) : Type 0 where
  pub manifest : Bytes
  pub found : find_file (codes "package.noqeri") files ≡ some manifest
  pub entry : find_entry false manifest ≡ some a.entry
  pub entry_safe : safe_relative a.entry ≡ true
  pub entry_source : has_suffix a.entry (codes ".noqeri") ≡ true
  pub entry_found : is_found (find_file a.entry files) ≡ true
  pub dependencies : a.dependencies ≡ dependency_map [] (find_dependencies 0 true manifest)
  pub packed : packer.pack (map header_of files) ≡ some a.bytes
  pub small : length a.bytes ≤ max_archive_bytes
  pub digest : a.digest ≡ hex_encode (packer.sha256 a.bytes)

archive_of-IsArchive :
    (packer : Packer) (files : List File) (a : Artifact)
    → archive_of packer files ≡ ok a
    → IsArchive packer files a
unfolding archive_of
archive_of-IsArchive packer files a h =
    let manifest_file = find_file (codes "package.noqeri") files in
    let (manifest, hm, h1) = >>=-eq-ok (or_fail manifest_file manifest_missing) _ h in
    let (name, hn, h2) = >>=-eq-ok (or_fail (find_entry false manifest) invalid_entry) _ h1 in
    let (good, h3) =
      >>-eq-ok (not (safe_relative name) || not (has_suffix name (codes ".noqeri"))) invalid_entry _
        h2 in
    let (there, h4) = >>-eq-ok (not (is_found (find_file name files))) entry_missing _ h3 in
    let (bytes, hb, h5) =
      >>=-eq-ok (or_fail (packer.pack (map header_of files)) pack_failed) _ h4 in
    let (small, h6) = >>-eq-ok (ltb max_archive_bytes (length bytes)) archive_too_large _ h5 in
    let built : Artifact = record {
      bytes = bytes;
      digest = hex_encode (packer.sha256 bytes);
      entry = name;
      dependencies = dependency_map [] (find_dependencies 0 true manifest);
    } in
    subst (IsArchive packer files) (ok-injective built a h6) (record {
      manifest = manifest;
      found = or_fail-eq-ok manifest_file manifest_missing manifest hm;
      entry = or_fail-eq-ok (find_entry false manifest) invalid_entry name hn;
      entry_safe = (both-true _ _ good).0;
      entry_source = (both-true _ _ good).1;
      entry_found = not-true _ there;
      dependencies = refl;
      packed = or_fail-eq-ok (packer.pack (map header_of files)) pack_failed bytes hb;
      small = ltb-false max_archive_bytes (length bytes) small;
      digest = refl;
    })

-- Files within the bounds of an archive, in the order of their names.
pub record AreBounded (files : List File) : Type 0 where
  pub few : length files ≤ max_archive_files
  pub small : total_bytes files ≤ max_archive_bytes
  pub safe : All (λ f. safe_relative f.name ≡ true) files

-- The steps of BuildArchive that succeeds.
record Steps (packer : Packer) (tree : Tree) (a : Artifact) : Type 0 where
  real : tree.root ≡ some directory
  bounded : AreBounded (regular_files tree.visits)
  archived : archive_of packer (sort has_smaller_name (regular_files tree.visits)) ≡ ok a

directory-only : (kind : Kind) → not (is_directory kind) ≡ false → kind ≡ directory
directory-only kind h = ground arith

build_archive-Steps :
    (packer : Packer) (tree : Tree) (a : Artifact)
    → build_archive packer tree ≡ ok a
    → Steps packer tree a
unfolding build_archive
build_archive-Steps packer tree a h =
    let (kind, hk, h1) = >>=-eq-ok (or_fail tree.root stat_failed) _ h in
    let (real, h2) = >>-eq-ok (not (is_directory kind)) not_a_directory _ h1 in
    let (w, walked, h3) = >>=-eq-ok (walk_dir tree.visits no_walk) _ h2 in
    let (b, gathered) = walk_dir-IsBounded tree.visits w walked in
    record {
      real = or_fail-eq-ok tree.root stat_failed kind hk ∙ ap some (directory-only kind real);
      bounded =
          subst AreBounded gathered
            (record { few = b.few; small = omega (arith, b.small, b.counted); safe = b.safe });
      archived = subst (λ fs. archive_of packer (sort has_smaller_name fs) ≡ ok a) gathered h3;
    }

has_smaller_name_asymmetric :
    (f g : File) → has_smaller_name f g ≡ true → has_smaller_name g f ≡ false
unfolding has_smaller_name
has_smaller_name_asymmetric f g h = ground (arith, name-IsOrder.mirrored f.name g.name)

-- An archive that BuildArchive returns is that of the regular files below a real directory, sorted
-- by name: at most 256 files and 8 MiB, all names safe. Its manifest is the file package.noqeri,
-- its entry a safe name of a Noqeri file among them, and its digest that of its bytes.
pub build_archive-IsArchive :
    (packer : Packer) (tree : Tree) (a : Artifact)
    → build_archive packer tree ≡ ok a
    → (tree.root ≡ some directory)
      × AreBounded (regular_files tree.visits)
      × ((files : List File) × Perm files (regular_files tree.visits)
          × IsSorted has_smaller_name files
          × IsArchive packer files a)
build_archive-IsArchive packer tree a h =
    let s = build_archive-Steps packer tree a h in
    let files = sort has_smaller_name (regular_files tree.visits) in
    (
      s.real,
      s.bounded,
      (
        files,
        sort-perm has_smaller_name (regular_files tree.visits),
        sort-IsSorted has_smaller_name has_smaller_name_asymmetric (regular_files tree.visits),
        archive_of-IsArchive packer files a s.archived,
      ),
    )

abbrev pub name_of : File → Bytes
name_of f = f.name

abbrev Earlier : File → File → Type 0
Earlier f g = list_order nat_order f.name g.name ≡ below

Sign-set : IsSet Sign
Sign-set = hlevel

File-set : IsSet File
File-set = hlevel

earlier : (f g : File) → has_smaller_name g f ≡ false → f.name ≢ g.name → Earlier f g
unfolding has_smaller_name
earlier f g h apart = ground (
  arith,
  name-IsOrder.mirrored f.name g.name,
  λ (e : list_order nat_order f.name g.name ≡ same). apart (name-IsOrder.exact _ _ e),
)

sorted-IsChain :
    (fs : List File) → IsSorted has_smaller_name fs → Nodup (map name_of fs) → IsChain Earlier fs
sorted-IsChain [] h n = tt
sorted-IsChain (f ∷ []) h n = (tt, tt)
sorted-IsChain (f ∷ g ∷ rest) h n =
    let (absent, unique) = Nodup-cons.0 n in
    (earlier f g h.0 (λ e. absent (mem-cons.1 (Or.inl e))), sorted-IsChain (g ∷ rest) h.1 unique)

-- Files of different names have one order.
sort_unique :
    (fs gs : List File)
    → Nodup (map name_of fs)
    → Perm fs gs
    → sort has_smaller_name fs ≡ sort has_smaller_name gs
sort_unique fs gs n p =
    let strict =
      IsChain-Strictly Earlier (λ f g k. name-IsOrder.transitive f.name g.name k.name)
        (λ f g h k. absurd (cc (name-IsOrder.mirrored f.name g.name, h, k))) File-set
        (λ f g. Sign-set _ _) in
    let sorted =
      λ (xs : List File). sort-IsSorted has_smaller_name has_smaller_name_asymmetric xs in
    let pf = sort-perm has_smaller_name fs in
    let pg = sort-perm has_smaller_name gs in
    let nf = Perm.nodup (Perm.map name_of (Perm.symm pf)) n in
    let ng = Perm.nodup (Perm.map name_of (Perm.trans p (Perm.symm pg))) n in
    Strictly-unique Earlier (λ f g k. name-IsOrder.transitive f.name g.name k.name)
      (λ f g h k. absurd (cc (name-IsOrder.mirrored f.name g.name, h, k))) File-set
      (λ f g. Sign-set _ _) _ _ (Perm.trans pf (Perm.trans p (Perm.symm pg)))
      (strict _ (sorted-IsChain _ (sorted fs) nf)) (strict _ (sorted-IsChain _ (sorted gs) ng))

-- Two trees with the same regular files, of different names, give the same archive, in whatever
-- order they are walked, if both can be built.
pub build_archive_deterministic :
    (packer : Packer) (tree tree' : Tree) (a a' : Artifact)
    → Nodup (map name_of (regular_files tree.visits))
    → Perm (regular_files tree.visits) (regular_files tree'.visits)
    → build_archive packer tree ≡ ok a
    → build_archive packer tree' ≡ ok a'
    → a ≡ a'
build_archive_deterministic packer tree tree' a a' n p h h' =
    let s = build_archive-Steps packer tree a h in
    let s' = build_archive-Steps packer tree' a' h' in
    ok-injective a a' (sym s.archived ∙ ap (archive_of packer) (sort_unique _ _ n p) ∙ s'.archived)
