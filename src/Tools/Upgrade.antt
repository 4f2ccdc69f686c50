-- ===== src/Tools/Upgrade.antt =====
-- cmd/packageupgrade/main.go: what it makes of one release, and its loops over the releases. The
-- files are a list that a run takes and returns; a directory is there if it holds a file, and each
-- file that is there can be read. A run that fails stops where it is; what it has written before is
-- not told.
pub mod Texts
pub mod Stored
pub mod Marked
pub mod Tested
pub mod Steady
pub mod Settled
pub mod Checked
use noqeri_registry.Prelude.{
  ℕ, ◌+◌, Bool, true, false, not, ◌&&◌, ◌||◌, List, [], ◌∷◌, ◌++◌, Option, none, some, any,
  if◌then◌else◌,
}
use noqeri_registry.Prelude.Text.{
  Bytes, Unicode, codes, str_eq, has_prefix, has_suffix, contains, cut, split, trim_space,
}
use noqeri_registry.Prelude.Fallible.{Fallible, ok, err, ◌>>=◌, ◌>>◌, refuse}
use noqeri_registry.Prelude.Paths.{resolve, locate, path_text}
use noqeri_registry.Prelude.Sort.{sort}
use noqeri_registry.Registry.Catalog.{join}
use noqeri_registry.Registry.Manifest.{expect}
use noqeri_registry.Tools.Names.{collect, is_smaller}
use noqeri_registry.Tools.Upgrade.Texts.{
  Upgrade, Naming, enhanced, is_enhanced, contract, walkthrough, api_reference, noticed,
}

abbrev pub Files : Type 0
Files = List (Bytes × Bytes)

-- `os.ReadFile`, `none` for a file that does not exist
unfoldable pub read : Bytes → Files → Option Bytes
unfolding str_eq
read path [] = none
read path ((name, body) ∷ files) =
    let rest = read path files in if str_eq name path then some body else rest

-- `os.WriteFile`
unfoldable pub put : Bytes → Bytes → Files → Files
unfolding str_eq
put path body [] = (path, body) ∷ []
put path body ((name, old) ∷ files) =
    let rest = put path body files in
    if str_eq name path then (name, body) ∷ files else (name, old) ∷ rest

-- The errors with which the command ends.
pub data UpgradeError : Type 0 where
  out_of_date not_written unreadable no_sources unsafe_entry : Bytes → UpgradeError
  no_entry invalid_entry : UpgradeError

-- The files, and the three counters of main.
pub record Work : Type 0 where
  pub files : Files
  pub releases : ℕ
  pub edited : ℕ
  pub deepened : ℕ

abbrev pub Working : Type 0
Working = Fallible UpgradeError Work

abbrev pub or_error {ℓ} : {A : Type ℓ} → Option A → UpgradeError → Fallible UpgradeError A
or_error none e = err e
or_error (some a) e = ok a

abbrev pub is_held : Option Bytes → Bytes → Bool
is_held none body = false
is_held (some old) body = str_eq old body

-- What follows the first occurrence of a text.
unfoldable pub after : Bytes → Bytes → Option Bytes
unfolding expect
after sub [] = expect sub []
after sub (c ∷ s) = elim (expect sub (c ∷ s)) [ some rest ↦ some rest | none ↦ after sub s ]

-- The entry of a manifest.
unfoldable pub manifest_entry : Unicode → Bytes → Fallible UpgradeError Bytes
unfolding after codes trim_space cut
manifest_entry u raw = do
  rest ← or_error (after (codes "entry:") raw) no_entry
  (_, quoted) ← or_error (cut (trim_space u rest) b'"') invalid_entry
  (entry, _) ← or_error (cut quoted b'"') invalid_entry
  refuse
      (has_prefix entry (codes "/")
        || (contains entry (codes "..") || not (has_suffix entry (codes ".noqeri"))))
      (unsafe_entry entry)
  ok entry

-- The path of the entry: `filepath.Join(dir, entry)` of a rooted directory.
unfoldable pub source_path : Bytes → Bytes → Bytes
unfolding path_text resolve locate split
source_path dir entry = path_text (resolve (locate dir) (split entry b'/'))

abbrev pub is_below : Bytes → Bytes → Bool
is_below dir path = has_prefix path dir

-- What the files hold that the walk below a directory reads; `dir` ends in a slash.
unfoldable pub sources : Bytes → Files → List Bytes
unfolding has_prefix has_suffix codes
sources dir [] = []
sources dir ((path, body) ∷ files) =
    let rest = sources dir files in
    if is_below dir path && has_suffix path (codes ".noqeri") then body ∷ rest else rest

-- A directory is there.
abbrev pub is_there : Bytes → Files → Bool
is_there dir files = any (λ f. is_below dir f.0) files

unfoldable pub collect_all : Unicode → Bytes → List Bytes → List Bytes → List Bytes
unfolding collect split
collect_all u needle seen [] = seen
collect_all u needle seen (body ∷ bodies) =
    collect_all u needle (collect u needle seen (split body b'\n')) bodies

unfoldable pub export_names :
    Unicode → Bytes → Files → Fallible UpgradeError (List Bytes × List Bytes)
unfolding collect_all sources is_smaller sort codes
export_names u dir files = do
  refuse (not (is_there dir files)) (no_sources dir)
  ok (
    sort is_smaller (collect_all u (codes "export function ") [] (sources dir files)),
    sort is_smaller (collect_all u (codes "extern function ") [] (sources dir files)),
  )

abbrev counted : Option Upgrade → Bytes → ℕ → ℕ
counted rule content n = if is_enhanced rule content then n + 1 else n

-- `check` is the flag -check, and `denied` the paths that cannot be written.
module _ (u : Unicode) (quote : Bytes → Bytes) (denied : Bytes → Bool) (check : Bool) where
  -- write, and `edited++` where it answers
  unfoldable pub write : Bytes → Bytes → Work → Working
  unfolding read put
  write path body w = if is_held (read path w.files) body then ok w else do
    refuse check (out_of_date path)
    refuse (denied path) (not_written path)
    ok (record w { files = put path body w.files; edited = w.edited + 1 })

  -- The two files of a rule with a test.
  unfoldable pub write_tests : Option Upgrade → Bytes → Bytes → Work → Working
  unfolding write contract walkthrough codes join
  write_tests none dir entry w = ok w
  write_tests (some rule) dir entry w = if str_eq rule.test [] then ok w else do
    w1 ← write (join dir (codes "tests/capability_regression.noqeri")) (contract quote entry rule) w
    write (join dir (codes "examples/capability_walkthrough.noqeri")) (walkthrough quote entry rule)
        w1

  -- From the entry of the manifest to the end of the loop's body.
  unfoldable pub upgrade_entry : Option Upgrade → Naming → Bytes → Bytes → Work → Working
  unfolding write read write_tests export_names enhanced api_reference noticed codes join
      source_path
  upgrade_entry rule naming dir entry w = do
    content ← or_error (read (source_path dir entry) w.files) (unreadable (source_path dir entry))
    w1 ←
        write (source_path dir entry) (enhanced u rule content)
          (record w { deepened = counted rule content w.deepened })
    w2 ← write_tests rule dir entry w1
    (funcs, ext) ← export_names u (join dir (codes "src/")) w2.files
    w3 ← write (join dir (codes "API_REFERENCE.md")) (api_reference naming entry funcs ext rule) w2
    w4 ←
        write (join dir (codes "README.md"))
          (noticed (read (join dir (codes "README.md")) w3.files)) w3
    ok (record w4 { releases = w4.releases + 1 })

  -- The body of the loop over the versions, from the manifest on.
  unfoldable pub upgrade_read : Option Upgrade → Naming → Bytes → Work → Option Bytes → Working
  unfolding manifest_entry upgrade_entry
  upgrade_read rule naming dir w none = ok w
  upgrade_read rule naming dir w (some raw) = do
    entry ← manifest_entry u raw
    upgrade_entry rule naming dir entry w

  unfoldable pub upgrade_release : Option Upgrade → Naming → Bytes → Work → Working
  unfolding read upgrade_read codes join
  upgrade_release rule naming dir w =
      upgrade_read rule naming dir w (read (join dir (codes "package.noqeri")) w.files)

  unfoldable pub upgrade_versions : Option Upgrade → Bytes → Bytes → List Bytes → Work → Working
  unfolding upgrade_release join
  upgrade_versions rule dir name [] w = ok w
  upgrade_versions rule dir name (version ∷ versions) w = do
    w1 ← upgrade_release rule (name, version) (join dir version) w
    upgrade_versions rule dir name versions w1

  -- The loop over the packages: each with its rule and the versions that it has a directory for.
  unfoldable pub upgrade_packages :
      (Bytes → Option Upgrade) → Bytes → List (Bytes × List Bytes) → Work → Working
  unfolding upgrade_versions join
  upgrade_packages rules top [] w = ok w
  upgrade_packages rules top ((name, versions) ∷ ps) w = do
    w1 ← upgrade_versions (rules name) (join top name) name versions w
    upgrade_packages rules top ps w1
