-- ===== src/Tools/Upgrade/Marked.antt =====
-- A text that cmd/packageupgrade has added to is not added to again.
use noqeri_registry.Prelude.{
  ◌≡◌, refl, true, false, Bool-cases, inl, inr, [], ◌∷◌, ◌++◌, Option, none, some, arith,
}
use noqeri_registry.Prelude.Text.{Bytes, Unicode, codes, contains}
use noqeri_registry.Prelude.Affix.{contains-append, contains-behind}
use noqeri_registry.Tools.Upgrade.Texts.{
  Upgrade, marker, readme_marker, is_enhanced, source_of, contents, ended, addition, enhanced,
  notice, noticed,
}

unmarked :
    (rule : Option Upgrade) (text : Bytes)
    → contains text marker ≡ true
    → is_enhanced rule text ≡ false
unfolding is_enhanced
unmarked none text h = refl
unmarked (some rule) text h = ground arith

contains-addition :
    (u : Unicode) (content source : Bytes) → contains (content ++ addition u source) marker ≡ true
unfolding addition
contains-addition u content source =
    contains-behind content _ marker
      (contains-behind (b'\n' ∷ []) _ marker (contains-append marker _))

pub enhanced_again :
    (u : Unicode) (rule : Option Upgrade) (content : Bytes)
    → (enhanced u rule (enhanced u rule content) ≡ enhanced u rule content)
      × (is_enhanced rule (enhanced u rule content) ≡ false)
unfolding enhanced
enhanced_again u rule content = elim (Bool-cases (is_enhanced rule content)) [
  | inr old ↦ rw old (rw old refl, old)
  | inl new ↦
      let marked =
        unmarked rule (content ++ addition u (source_of rule))
          (contains-addition u content (source_of rule)) in
      rw new (rw marked refl, marked)
]

contains-notice : contains notice readme_marker ≡ true
unfolding notice readme_marker codes contains
contains-notice = refl

noticed-marked : (original : Option Bytes) → contains (noticed original) readme_marker ≡ true
unfolding noticed
noticed-marked original = elim (Bool-cases (contains (contents original) readme_marker)) [
  | inl old ↦ rw old old
  | inr new ↦
      rw new (contains-behind (ended (contents original)) notice readme_marker contains-notice)
]

noticed_known : (text : Bytes) → contains text readme_marker ≡ true → noticed (some text) ≡ text
unfolding noticed
noticed_known text h = rw h refl

pub noticed_again : (original : Option Bytes) → noticed (some (noticed original)) ≡ noticed original
noticed_again original = noticed_known (noticed original) (noticed-marked original)
