-- ===== src/Tools/Upgrade/Steady.antt =====
-- A run of cmd/packageupgrade on files that hold what it writes.
use noqeri_registry.Prelude.{ℕ, ◌+◌, ◌≡◌, refl, sym, ap, ◌∙◌, Bool, true, List, Option, some}
use noqeri_registry.Prelude.Text.{Bytes, Unicode, codes}
use noqeri_registry.Prelude.Fallible.{ok, >>=-ok}
use noqeri_registry.Registry.Catalog.{join}
use noqeri_registry.Tools.Upgrade.Texts.{Upgrade, Naming, enhanced, api_reference, noticed}
use noqeri_registry.Tools.Upgrade.{
  unreadable, Work, read, or_error, source_path, export_names, counted, write, write_tests,
  upgrade_entry,
}
use noqeri_registry.Tools.Upgrade.Stored.{write_again}
use noqeri_registry.Tools.Upgrade.Marked.{enhanced_again, noticed_again}

module _ (u : Unicode) (quote : Bytes → Bytes) (denied : Bytes → Bool) (rule : Option Upgrade)
    (dir entry : Bytes) where
  write_known :
      (path body : Bytes) (v : Work) (n : ℕ)
      → read path v.files ≡ some body
      → n ≡ v.deepened
      → write u quote denied true path body (record v { deepened = n }) ≡ ok v
  write_known path body v n h e =
      ap (λ m. write u quote denied true path body (record v { deepened = m })) e
      ∙ write_again u quote denied true path body v h

  -- A run on files that hold what it writes.
  pub upgrade_entry_steady :
      (naming : Naming) (v : Work) (content : Bytes) (funcs ext : List Bytes)
      (original : Option Bytes)
      → read (source_path dir entry) v.files ≡ some (enhanced u rule content)
      → write_tests u quote denied true rule dir entry v ≡ ok v
      → export_names u (join dir (codes "src/")) v.files ≡ ok (funcs, ext)
      → read (join dir (codes "API_REFERENCE.md")) v.files
        ≡ some (api_reference naming entry funcs ext rule)
      → read (join dir (codes "README.md")) v.files ≡ some (noticed original)
      → upgrade_entry u quote denied true rule naming dir entry v
        ≡ ok (record v { releases = v.releases + 1 })
  unfolding upgrade_entry
  upgrade_entry_steady naming v content funcs ext original source tests listed reference seen =
      let src = source_path dir entry in
      let api = join dir (codes "API_REFERENCE.md") in
      let readme = join dir (codes "README.md") in
      let (again, plain) = enhanced_again u rule content in
      >>=-ok (or_error (read src v.files) (unreadable src)) _ (enhanced u rule content)
        (ap (λ o. or_error o (unreadable src)) source)
        (>>=-ok
          (write u quote denied true src (enhanced u rule (enhanced u rule content))
            (record v { deepened = counted rule (enhanced u rule content) v.deepened }))
          _ v
          (write_known src (enhanced u rule (enhanced u rule content)) v
            (counted rule (enhanced u rule content) v.deepened) (source ∙ ap some (sym again))
            (rw plain refl))
          (>>=-ok (write_tests u quote denied true rule dir entry v) _ v tests (
            >>=-ok (export_names u (join dir (codes "src/")) v.files) _ (funcs, ext) listed
              (>>=-ok (write u quote denied true api (api_reference naming entry funcs ext rule) v)
                _ v
                (write_again u quote denied true api (api_reference naming entry funcs ext rule) v
                  reference)
                (>>=-ok (write u quote denied true readme (noticed (read readme v.files)) v) _ v
                  (write_again u quote denied true readme (noticed (read readme v.files)) v
                    (seen ∙ ap some (sym (noticed_again original) ∙ ap noticed (sym seen))))
                  refl)))))
