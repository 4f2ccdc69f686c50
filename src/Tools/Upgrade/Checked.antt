-- ===== src/Tools/Upgrade/Checked.antt =====
-- A run of cmd/packageupgrade with -check.
use noqeri_registry.Prelude.{
  ◌+◌, ◌≡◌, sym, ap, ◌∙◌, Bool, true, Bool-cases, inl, inr, List, [], ◌∷◌, Option, none, some,
}
use noqeri_registry.Prelude.Text.{Bytes, Unicode, codes, str_eq}
use noqeri_registry.Prelude.Fallible.{ok, >>=-eq-ok, ok-injective}
use noqeri_registry.Registry.Catalog.{join}
use noqeri_registry.Tools.Upgrade.Texts.{
  Upgrade, Naming, enhanced, contract, api_reference, noticed,
}
use noqeri_registry.Tools.Upgrade.{
  Work, read, is_held, or_error, manifest_entry, source_path, export_names, unreadable, counted,
  write, write_tests, upgrade_entry, upgrade_read, upgrade_release, upgrade_versions,
  upgrade_packages,
}

-- No file and not the count of changes is different.
pub record IsUntouched (w w' : Work) : Type 0 where
  pub same_files : w'.files ≡ w.files
  pub none_edited : w'.edited ≡ w.edited

untouched : (w w' : Work) → w ≡ w' → IsUntouched w w'
untouched w w' e = record {
  same_files = ap (λ (x : Work). x.files) (sym e);
  none_edited = ap (λ (x : Work). x.edited) (sym e);
}

recounted : (w w' : Work) → record w { releases = w.releases + 1 } ≡ w' → IsUntouched w w'
recounted w w' e = record {
  same_files = ap (λ (x : Work). x.files) (sym e);
  none_edited = ap (λ (x : Work). x.edited) (sym e);
}

both : (w w1 w2 : Work) → IsUntouched w w1 → IsUntouched w1 w2 → IsUntouched w w2
both w w1 w2 a b = record {
  same_files = b.same_files ∙ a.same_files;
  none_edited = b.none_edited ∙ a.none_edited;
}

module _ (u : Unicode) (quote : Bytes → Bytes) (denied : Bytes → Bool) where
  write-IsUntouched :
      (path body : Bytes) (w w' : Work)
      → write u quote denied true path body w ≡ ok w'
      → IsUntouched w w'
  unfolding write
  write-IsUntouched path body w w' h = elim (Bool-cases (is_held (read path w.files) body)) [
    | inl old ↦ untouched w w' (ok-injective w w' (rw old at h))
    | inr new ↦ absurd (cc (rw new at h))
  ]

  write_tests-IsUntouched :
      (rule : Option Upgrade) (dir entry : Bytes) (w w' : Work)
      → write_tests u quote denied true rule dir entry w ≡ ok w'
      → IsUntouched w w'
  unfolding write_tests
  write_tests-IsUntouched none dir entry w w' h = untouched w w' (ok-injective w w' h)
  write_tests-IsUntouched (some rule) dir entry w w' h = elim (Bool-cases (str_eq rule.test [])) [
    | inl blank ↦ untouched w w' (ok-injective w w' (rw blank at h))
    | inr given ↦
        let con = join dir (codes "tests/capability_regression.noqeri") in
        let (w1, h0, h1) =
          >>=-eq-ok (write u quote denied true con (contract quote entry rule) w) _
            (rw given at h) in
        both w w1 w' (write-IsUntouched con _ w w1 h0) (write-IsUntouched _ _ w1 w' h1)
  ]

  upgrade_entry-IsUntouched :
      (rule : Option Upgrade) (naming : Naming) (dir entry : Bytes) (w w' : Work)
      → upgrade_entry u quote denied true rule naming dir entry w ≡ ok w'
      → IsUntouched w w'
  unfolding upgrade_entry
  upgrade_entry-IsUntouched rule naming dir entry w w' h =
      let src = source_path dir entry in
      let api = join dir (codes "API_REFERENCE.md") in
      let readme = join dir (codes "README.md") in
      let (content, _, k0) = >>=-eq-ok (or_error (read src w.files) (unreadable src)) _ h in
      let v = record w { deepened = counted rule content w.deepened } in
      let (w1, h1, k1) =
        >>=-eq-ok (write u quote denied true src (enhanced u rule content) v) _ k0 in
      let (w2, h2, k2) = >>=-eq-ok (write_tests u quote denied true rule dir entry w1) _ k1 in
      let ((funcs, ext), h3, k3) =
        >>=-eq-ok (export_names u (join dir (codes "src/")) w2.files) _ k2 in
      let (w3, h4, k4) =
        >>=-eq-ok (write u quote denied true api (api_reference naming entry funcs ext rule) w2) _
          k3 in
      let (w4, h5, k5) =
        >>=-eq-ok (write u quote denied true readme (noticed (read readme w3.files)) w3) _ k4 in
      let s = write-IsUntouched src (enhanced u rule content) v w1 h1 in
      let rest =
        both w1 w2 w4 (write_tests-IsUntouched rule dir entry w1 w2 h2) (
          both w2 w3 w4 (write-IsUntouched api _ w2 w3 h4) (write-IsUntouched readme _ w3 w4 h5)) in
      let all =
        both w1 w4 w' rest
          (recounted w4 w' (ok-injective (record w4 { releases = w4.releases + 1 }) w' k5)) in
      record {
        same_files = all.same_files ∙ s.same_files;
        none_edited = all.none_edited ∙ s.none_edited;
      }

  upgrade_read-IsUntouched :
      (rule : Option Upgrade) (naming : Naming) (dir : Bytes) (w w' : Work)
      (manifest : Option Bytes)
      → upgrade_read u quote denied true rule naming dir w manifest ≡ ok w'
      → IsUntouched w w'
  unfolding upgrade_read
  upgrade_read-IsUntouched rule naming dir w w' none h = untouched w w' (ok-injective w w' h)
  upgrade_read-IsUntouched rule naming dir w w' (some raw) h =
      let (entry, _, k) = >>=-eq-ok (manifest_entry u raw) _ h in
      upgrade_entry-IsUntouched rule naming dir entry w w' k

  upgrade_versions-IsUntouched :
      (rule : Option Upgrade) (dir name : Bytes) (versions : List Bytes) (w w' : Work)
      → upgrade_versions u quote denied true rule dir name versions w ≡ ok w'
      → IsUntouched w w'
  unfolding upgrade_versions upgrade_release
  upgrade_versions-IsUntouched rule dir name [] w w' h = untouched w w' (ok-injective w w' h)
  upgrade_versions-IsUntouched rule dir name (version ∷ versions) w w' h =
      let (w1, h1, k) =
        >>=-eq-ok (upgrade_release u quote denied true rule (name, version) (join dir version) w) _
          h in
      both w w1 w'
        (upgrade_read-IsUntouched rule (name, version) (join dir version) w w1
          (read (join (join dir version) (codes "package.noqeri")) w.files) h1)
        (upgrade_versions-IsUntouched rule dir name versions w1 w' k)

-- With -check the command writes nothing: however many packages and versions it goes over, if it ends
-- well then every file is as before, and no change is counted.
pub upgrade_packages-IsUntouched :
    (u : Unicode) (quote : Bytes → Bytes) (denied : Bytes → Bool) (rules : Bytes → Option Upgrade)
    (top : Bytes) (ps : List (Bytes × List Bytes)) (w w' : Work)
    → upgrade_packages u quote denied true rules top ps w ≡ ok w'
    → IsUntouched w w'
unfolding upgrade_packages
upgrade_packages-IsUntouched u quote denied rules top [] w w' h =
    untouched w w' (ok-injective w w' h)
upgrade_packages-IsUntouched u quote denied rules top ((name, versions) ∷ ps) w w' h =
    let (w1, h1, k) =
      >>=-eq-ok (upgrade_versions u quote denied true (rules name) (join top name) name versions w)
        _ h in
    both w w1 w'
      (upgrade_versions-IsUntouched u quote denied (rules name) (join top name) name versions w w1
        h1)
      (upgrade_packages-IsUntouched u quote denied rules top ps w1 w' k)
