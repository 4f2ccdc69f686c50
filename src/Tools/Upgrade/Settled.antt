-- ===== src/Tools/Upgrade/Settled.antt =====
-- A second run of cmd/packageupgrade has nothing to do.
use noqeri_registry.Prelude.{
  subst, ◌+◌, ◌≡◌, refl, sym, ap, ◌∙◌, Bool, true, false, List, [], ◌∷◌, Option, some, All,
}
use noqeri_registry.Prelude.Text.{Bytes, Unicode, codes, str_eq, has_prefix}
use noqeri_registry.Prelude.Fallible.{ok, >>=-eq-ok, >>=-ok, ok-injective}
use noqeri_registry.Registry.Catalog.{join}
use noqeri_registry.Tools.Upgrade.Texts.{Upgrade, Naming, enhanced, api_reference, noticed}
use noqeri_registry.Tools.Upgrade.{
  unreadable, Files, Work, read, sources, is_there, or_error, manifest_entry, source_path,
  export_names, counted, write, write_tests, upgrade_entry, upgrade_read, upgrade_release,
}
use noqeri_registry.Tools.Upgrade.Stored.{IsWritten, write-IsWritten, has_prefix-join, str_eq_sym}
use noqeri_registry.Tools.Upgrade.Tested.{
  contract_path, walkthrough_path, apart, write_tests-IsTested,
}
use noqeri_registry.Tools.Upgrade.Steady.{upgrade_entry_steady}

-- The five other files that a run reads or writes.
abbrev others_of : List Bytes
others_of =
    codes "package.noqeri"
    ∷ codes "tests/capability_regression.noqeri"
    ∷ codes "examples/capability_walkthrough.noqeri"
    ∷ codes "API_REFERENCE.md"
    ∷ codes "README.md"
    ∷ []

-- The entry is none of them.
abbrev pub IsApart : Bytes → Bytes → Type 0
IsApart dir entry = All (λ name. str_eq (source_path dir entry) (join dir name) ≡ false) others_of

module _ (u : Unicode) (quote : Bytes → Bytes) (denied : Bytes → Bool) (rule : Option Upgrade)
    (dir entry : Bytes) where
  export_names-same :
      (place : Bytes) (files files' : Files)
      → sources place files' ≡ sources place files
      → is_there place files' ≡ is_there place files
      → export_names u place files' ≡ export_names u place files
  unfolding export_names
  export_names-same place files files' h k = rw (h, k) refl

  abbrev man : Bytes
  man = join dir (codes "package.noqeri")

  abbrev con : Bytes
  con = contract_path dir

  abbrev walk : Bytes
  walk = walkthrough_path dir

  abbrev api : Bytes
  api = join dir (codes "API_REFERENCE.md")

  abbrev readme : Bytes
  readme = join dir (codes "README.md")

  abbrev place : Bytes
  place = join dir (codes "src/")

  -- What the last two files of a run leave.
  record IsListed (naming : Naming) (funcs ext : List Bytes) (w w' : Work) : Type 0 where
    kept :
        (q : Bytes)
        → str_eq readme q ≡ false
        → str_eq api q ≡ false
        → read q w'.files ≡ read q w.files
    listed : export_names u place w'.files ≡ export_names u place w.files
    reference : read api w'.files ≡ some (api_reference naming entry funcs ext rule)
    original : Option Bytes
    seen : read readme w'.files ≡ some (noticed original)

  IsListed-after :
      (naming : Naming) (funcs ext : List Bytes) (original : Option Bytes) (w w1 w2 : Work)
      → IsWritten api (api_reference naming entry funcs ext rule) w w1
      → IsWritten readme (noticed original) w1 w2
      → IsListed naming funcs ext w w2
  unfolding codes str_eq has_prefix
  IsListed-after naming funcs ext original w w1 w2 a r =
      let far_readme = has_prefix-join dir (codes "README.md") (codes "src/") in
      let far_api = has_prefix-join dir (codes "API_REFERENCE.md") (codes "src/") in
      record {
        kept = λ q hr ha. r.kept q hr ∙ a.kept q ha;
        listed =
            export_names-same place w.files w2.files
              (r.same_sources place far_readme ∙ a.same_sources place far_api)
              (r.same_place place far_readme ∙ a.same_place place far_api);
        reference =
            r.kept api (apart dir (codes "README.md") (codes "API_REFERENCE.md") refl) ∙ a.held;
        original = original;
        seen = r.held;
      }

  -- The count of the releases does not change the files.
  moved :
      (naming : Naming) (funcs ext : List Bytes) (w v w' : Work)
      → record v { releases = v.releases + 1 } ≡ w'
      → IsListed naming funcs ext w v
      → IsListed naming funcs ext w w'
  moved naming funcs ext w v w' e l =
      subst (λ x. IsListed naming funcs ext w x) e
        (record {
          kept = l.kept;
          listed = l.listed;
          reference = l.reference;
          original = l.original;
          seen = l.seen;
        })

  upgrade_entry-again :
      (naming : Naming) (w w' : Work)
      → IsApart dir entry
      → upgrade_entry u quote denied false rule naming dir entry w ≡ ok w'
      → (read man w'.files ≡ read man w.files)
        × (upgrade_entry u quote denied true rule naming dir entry w'
            ≡ ok (record w' { releases = w'.releases + 1 }))
  unfolding upgrade_entry codes str_eq
  upgrade_entry-again naming w w' (sep_man, (sep_con, (sep_walk, (sep_api, (sep_readme, _))))) h =
      let src = source_path dir entry in
      let (content, _, k0) = >>=-eq-ok (or_error (read src w.files) (unreadable src)) _ h in
      let v = record w { deepened = counted rule content w.deepened } in
      let (w1, h1, k1) =
        >>=-eq-ok (write u quote denied false src (enhanced u rule content) v) _ k0 in
      let (w2, h2, k2) = >>=-eq-ok (write_tests u quote denied false rule dir entry w1) _ k1 in
      let ((funcs, ext), h3, k3) = >>=-eq-ok (export_names u place w2.files) _ k2 in
      let (w3, h4, k4) =
        >>=-eq-ok (write u quote denied false api (api_reference naming entry funcs ext rule) w2) _
          k3 in
      let (w4, h5, k5) =
        >>=-eq-ok (write u quote denied false readme (noticed (read readme w3.files)) w3) _ k4 in
      let s = write-IsWritten u quote denied src (enhanced u rule content) v w1 h1 in
      let t = write_tests-IsTested u quote denied rule dir entry w1 w2 h2 in
      let l =
        moved naming funcs ext w2 w4 w'
          (ok-injective (record w4 { releases = w4.releases + 1 }) w' k5)
          (IsListed-after naming funcs ext (read readme w3.files) w2 w3 w4
            (write-IsWritten u quote denied api _ w2 w3 h4)
            (write-IsWritten u quote denied readme _ w3 w4 h5)) in
      (
        l.kept man (apart dir _ _ refl) (apart dir _ _ refl)
            ∙ t.others man (apart dir _ _ refl) (apart dir _ _ refl)
            ∙ s.kept man sep_man,
        upgrade_entry_steady u quote denied rule dir entry naming w' content funcs ext l.original
            (l.kept src (str_eq_sym src readme sep_readme) (str_eq_sym src api sep_api)
              ∙ t.others src (str_eq_sym src con sep_con) (str_eq_sym src walk sep_walk)
              ∙ s.held)
            (t.settled w' (l.kept con (apart dir _ _ refl) (apart dir _ _ refl))
              (l.kept walk (apart dir _ _ refl) (apart dir _ _ refl)))
            (l.listed ∙ h3) l.reference l.seen,
      )

upgrade_release-entry :
    (u : Unicode) (quote : Bytes → Bytes) (denied : Bytes → Bool) (check : Bool)
    (rule : Option Upgrade) (naming : Naming) (dir raw entry : Bytes) (w : Work)
    → read (join dir (codes "package.noqeri")) w.files ≡ some raw
    → manifest_entry u raw ≡ ok entry
    → upgrade_release u quote denied check rule naming dir w
      ≡ upgrade_entry u quote denied check rule naming dir entry w
unfolding upgrade_release upgrade_read
upgrade_release-entry u quote denied check rule naming dir raw entry w held named =
    ap (upgrade_read u quote denied check rule naming dir w) held
    ∙ >>=-ok (manifest_entry u raw) _ entry named refl

-- A release that packageupgrade has brought up to date passes its check: if a run without -check
-- ends well, then a run with -check on the files that it leaves ends well, changes no file and counts
-- no change. The manifest must name an entry, and that entry must be none of the five files that the
-- command reads and writes beside it.
pub upgrade_release-again :
    (u : Unicode) (quote : Bytes → Bytes) (denied : Bytes → Bool) (rule : Option Upgrade)
    (naming : Naming) (dir raw entry : Bytes) (w w' : Work)
    → read (join dir (codes "package.noqeri")) w.files ≡ some raw
    → manifest_entry u raw ≡ ok entry
    → IsApart dir entry
    → upgrade_release u quote denied false rule naming dir w ≡ ok w'
    → upgrade_release u quote denied true rule naming dir w'
      ≡ ok (record w' { releases = w'.releases + 1 })
upgrade_release-again u quote denied rule naming dir raw entry w w' held named separate h =
    let run =
      λ (check : Bool). upgrade_release-entry u quote denied check rule naming dir raw entry in
    let (kept, again) =
      upgrade_entry-again u quote denied rule dir entry naming w w' separate
        (sym (run false w held named) ∙ h) in
    run true w' (kept ∙ held) named ∙ again
