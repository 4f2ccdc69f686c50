-- ===== src/Registry/Archive/Walks.antt =====
-- What the walk of BuildArchive gathers, and its bounds.
use mathlib.Core.List.{append-nil, append_assoc}
use noqeri_registry.Prelude.{
  or-false, ℕ, zero, suc, ◌+◌, ◌-◌, ◌≤◌, ◌<◌, ◌≡◌, refl, sym, ap, ◌∙◌, subst, true, false, not,
  ◌||◌, List, [], ◌∷◌, ◌++◌, Option, none, some, length, length-append, leb, ltb, ltb-false, arith,
  All, All-append,
}
use noqeri_registry.Prelude.Text.{Bytes}
use noqeri_registry.Prelude.Fallible.{ok, err, >>-eq-ok, >>=-eq-ok, ok-injective}
use noqeri_registry.Registry.Relative.{safe_relative}
use noqeri_registry.Registry.Archive.{
  File, Kind, directory, symlink, regular, other, Entry, Visit, failure, root_again, entry,
  ArchiveError, nesting_exceeded, limit_exceeded, unsafe_name, relative_failed, stat_failed,
  read_failed, or_fail, Walk, no_walk, max_archive_files, max_archive_bytes, take, visit_directory,
  visit_file, visit_kind, visit, walk_dir,
}

-- The number of bytes of all files.
unfoldable pub total_bytes : List File → ℕ
total_bytes [] = 0
total_bytes (f ∷ fs) = length f.contents + total_bytes fs

-- The bounds that the walk keeps, and the names that it lets in.
pub record IsBounded (w : Walk) : Type 0 where
  pub few : length w.files ≤ max_archive_files
  pub counted : total_bytes w.files ≡ w.size
  pub small : w.size ≤ max_archive_bytes
  pub shallow : w.directories ≤ 256
  pub safe : All (λ f. safe_relative f.name ≡ true) w.files

-- The file of one entry, whole.
unfoldable pub file_of : Option Bytes → Option (Kind × ℕ) → Option Bytes → List File
file_of (some rel) (some (regular, size)) (some whole) =
    record { name = rel; contents = whole } ∷ []
file_of _ _ _ = []

-- The regular files of a walk with their names and whole contents, as it meets them.
unfoldable pub regular_files : List Visit → List File
unfolding file_of
regular_files [] = []
regular_files (failure ∷ vs) = regular_files vs
regular_files (root_again ∷ vs) = regular_files vs
regular_files (entry e ∷ vs) = file_of e.relative e.stat e.contents ++ regular_files vs

take_short : (n : ℕ) (xs : Bytes) → length (take (suc n) xs) ≤ n → take (suc n) xs ≡ xs
unfolding take
take_short n [] h = refl
take_short zero (x ∷ xs) h = absurd (omega arith)
take_short (suc n) (x ∷ xs) h = ap (◌∷◌ x) (take_short n xs (omega arith))

total_bytes-append : (fs gs : List File) → total_bytes (fs ++ gs) ≡ total_bytes fs + total_bytes gs
unfolding total_bytes
total_bytes-append [] gs = omega arith
total_bytes-append (f ∷ fs) gs = omega (arith, total_bytes-append fs gs)

pub or_fail-eq-ok {ℓ} :
    {A : Type ℓ} (o : Option A) (e : ArchiveError) (a : A) → or_fail o e ≡ ok a → o ≡ some a
or_fail-eq-ok none e a h = cc
or_fail-eq-ok (some b) e a h = ap some (ok-injective b a h)

-- One visit: the bounds stay, and the file of the entry is added.
record Gathers (added : List File) (w w' : Walk) : Type 0 where
  bounded : IsBounded w → IsBounded w'
  gathered : w'.files ≡ w.files ++ added

file_added :
    (rel raw : Bytes) (w : Walk)
    → safe_relative rel ≡ true
    → length w.files < max_archive_files
    → length raw ≤ max_archive_bytes - w.size
    → Gathers (record { name = rel; contents = raw } ∷ []) w (record w {
      files = w.files ++ record { name = rel; contents = raw } ∷ [];
      size = w.size + length raw;
    })
unfolding total_bytes
file_added rel raw w safe room short =
    let added : List File = record { name = rel; contents = raw } ∷ [] in
    record {
      bounded = λ b. record {
        few = omega (arith, length-append w.files added, b.few);
        counted = omega (arith, total_bytes-append w.files added, b.counted);
        small = omega (arith, b.small);
        shallow = b.shallow;
        safe = All-append _ w.files added b.safe (safe, tt);
      };
      gathered = refl;
    }

leb-false : (a b : ℕ) → leb a b ≡ false → b < a
leb-false a b h = ground arith

visit_file-Gathers :
    (rel : Bytes) (size : ℕ) (contents : Option Bytes) (w w' : Walk)
    → safe_relative rel ≡ true
    → visit_file rel size contents w ≡ ok w'
    → Gathers (file_of (some rel) (some (regular, size)) contents) w w'
unfolding visit_file file_of
visit_file-Gathers rel size none w w' safe h =
    let full = leb max_archive_files (length w.files) || ltb (max_archive_bytes - w.size) size in
    let (room, h1) = >>-eq-ok full limit_exceeded (err read_failed) h in absurd (cc h1)
visit_file-Gathers rel size (some whole) w w' safe h =
    let (room, h1) = >>-eq-ok _ limit_exceeded _ h in
    let (short, h2) = >>-eq-ok _ limit_exceeded _ h1 in
    let n = max_archive_bytes - w.size in
    let bound = ltb-false n (length (take (suc n) whole)) short in
    let room' = leb-false max_archive_files (length w.files) (or-false _ _ room).0 in
    let entire = take_short n whole bound in
    subst (Gathers (record { name = rel; contents = whole } ∷ []) w) (ok-injective _ w' h2)
      (rw entire (file_added rel whole w safe room' (subst (λ s. length s ≤ n) entire bound)))

-- A step that adds no file and no byte.
nothing_added :
    (w : Walk) (d : ℕ) → (IsBounded w → d ≤ 256) → Gathers [] w (record w { directories = d })
nothing_added w d h = record {
  bounded = λ b. record {
    few = b.few;
    counted = b.counted;
    small = b.small;
    shallow = h b;
    safe = b.safe;
  };
  gathered = sym (append-nil w.files);
}

visit_directory-Gathers :
    (rel : Bytes) (w w' : Walk) → visit_directory rel w ≡ ok w' → Gathers [] w w'
unfolding visit_directory
visit_directory-Gathers rel w w' h =
    let (room, h1) = >>-eq-ok _ nesting_exceeded _ h in
    let few = ltb-false 256 (w.directories + 1) (or-false _ _ room).0 in
    subst (Gathers [] w) (ok-injective _ w' h1) (nothing_added w (w.directories + 1) (λ b. few))

visit_kind-Gathers :
    (kind : Kind) (rel : Bytes) (size : ℕ) (contents : Option Bytes) (w w' : Walk)
    → safe_relative rel ≡ true
    → visit_kind kind rel size contents w ≡ ok w'
    → Gathers (file_of (some rel) (some (kind, size)) contents) w w'
unfolding visit_kind file_of
visit_kind-Gathers symlink rel size contents w w' safe h = cc
visit_kind-Gathers directory rel size contents w w' safe h = visit_directory-Gathers rel w w' h
visit_kind-Gathers regular rel size contents w w' safe h =
    visit_file-Gathers rel size contents w w' safe h
visit_kind-Gathers other rel size contents w w' safe h = cc

Gathers-trans :
    (xs ys : List File) (w w' w'' : Walk)
    → Gathers xs w w'
    → Gathers ys w' w''
    → Gathers (xs ++ ys) w w''
Gathers-trans xs ys w w' w'' g k = record {
  bounded = λ b. k.bounded (g.bounded b);
  gathered = k.gathered ∙ ap (λ (t : List File). t ++ ys) g.gathered ∙ append_assoc w.files xs ys;
}

visit_entry-Gathers :
    (e : Entry) (w w' : Walk)
    → visit (entry e) w ≡ ok w'
    → Gathers (file_of e.relative e.stat e.contents) w w'
unfolding visit
visit_entry-Gathers e w w' h =
    let (rel, hr, h1) = >>=-eq-ok (or_fail e.relative relative_failed) _ h in
    let (safe, h2) = >>-eq-ok (not (safe_relative rel)) unsafe_name _ h1 in
    let ((kind, size), hs, h3) = >>=-eq-ok (or_fail e.stat stat_failed) _ h2 in
    rw
      (
        or_fail-eq-ok e.relative relative_failed rel hr,
        or_fail-eq-ok e.stat stat_failed (kind, size) hs,
      )
      (visit_kind-Gathers kind rel size e.contents w w' (ground arith) h3)

walk_dir-Gathers :
    (vs : List Visit) (w w' : Walk) → walk_dir vs w ≡ ok w' → Gathers (regular_files vs) w w'
unfolding walk_dir regular_files visit
walk_dir-Gathers [] w w' h =
    subst (Gathers [] w) (ok-injective w w' h) (nothing_added w w.directories (λ b. b.shallow))
walk_dir-Gathers (failure ∷ vs) w w' h = cc
walk_dir-Gathers (root_again ∷ vs) w w' h = walk_dir-Gathers vs w w' h
walk_dir-Gathers (entry e ∷ vs) w w' h =
    let (w1, first, rest) = >>=-eq-ok (visit (entry e) w) _ h in
    Gathers-trans (file_of e.relative e.stat e.contents) (regular_files vs) w w1 w'
      (visit_entry-Gathers e w w1 first) (walk_dir-Gathers vs w1 w' rest)

-- A walk from the start that ends without an error has the regular files, whole, within bounds.
pub walk_dir-IsBounded :
    (vs : List Visit) (w : Walk)
    → walk_dir vs no_walk ≡ ok w
    → IsBounded w × (w.files ≡ regular_files vs)
unfolding total_bytes
walk_dir-IsBounded vs w h =
    let g = walk_dir-Gathers vs no_walk w h in
    (
      g.bounded (record {
        few = omega arith;
        counted = refl;
        small = omega arith;
        shallow = omega arith;
        safe = tt;
      }),
      g.gathered,
    )
