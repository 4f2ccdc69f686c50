-- ===== src/Tools/Upgrade/Tested.antt =====
-- The two test files of a rule, and where they stand.
use noqeri_registry.Prelude.{
  Option-cases, ◌≡◌, refl, sym, ◌∙◌, Bool, true, false, Bool-cases, inl, inr, [], Option, some,
}
use noqeri_registry.Prelude.Text.{Bytes, Unicode, codes, str_eq}
use noqeri_registry.Prelude.Fallible.{ok, ◌>>=◌, >>=-eq-ok, ok-injective}
use noqeri_registry.Registry.Catalog.{join}
use noqeri_registry.Tools.Upgrade.Texts.{Upgrade, contract, walkthrough}
use noqeri_registry.Tools.Upgrade.{Work, read, write, write_tests}
use noqeri_registry.Tools.Upgrade.Stored.{write-IsWritten, write_again, str_eq-join}

abbrev pub contract_path : Bytes → Bytes
contract_path dir = join dir (codes "tests/capability_regression.noqeri")

abbrev pub walkthrough_path : Bytes → Bytes
walkthrough_path dir = join dir (codes "examples/capability_walkthrough.noqeri")

pub apart : (dir a b : Bytes) → str_eq a b ≡ false → str_eq (join dir a) (join dir b) ≡ false
apart dir a b h = str_eq-join dir a b ∙ h

module _ (u : Unicode) (quote : Bytes → Bytes) (denied : Bytes → Bool) (rule : Option Upgrade)
    (dir entry : Bytes) where
  -- What the two test files leave, and that writing them again changes nothing.
  pub record IsTested (w w' : Work) : Type 0 where
    pub others :
        (q : Bytes)
        → str_eq (contract_path dir) q ≡ false
        → str_eq (walkthrough_path dir) q ≡ false
        → read q w'.files ≡ read q w.files
    pub settled :
        (v : Work)
        → read (contract_path dir) v.files ≡ read (contract_path dir) w'.files
        → read (walkthrough_path dir) v.files ≡ read (walkthrough_path dir) w'.files
        → write_tests u quote denied true rule dir entry v ≡ ok v

  tested :
      (some_rule : Upgrade) (w w' : Work)
      → rule ≡ some some_rule
      → str_eq some_rule.test [] ≡ false
      → (write u quote denied false (contract_path dir) (contract quote entry some_rule) w
          >>= write u quote denied false (walkthrough_path dir) (walkthrough quote entry some_rule))
        ≡ ok w'
      → IsTested w w'
  unfolding write_tests codes str_eq
  tested some_rule w w' e given h =
      let (w1, h0, h1) =
        >>=-eq-ok
          (write u quote denied false (contract_path dir) (contract quote entry some_rule) w)
          (write u quote denied false (walkthrough_path dir) (walkthrough quote entry some_rule))
          h in
      let c = write-IsWritten u quote denied _ _ w w1 h0 in
      let x = write-IsWritten u quote denied _ _ w1 w' h1 in
      let c_held =
        x.kept (contract_path dir) (
          apart dir (codes "examples/capability_walkthrough.noqeri")
            (codes "tests/capability_regression.noqeri") refl)
        ∙ c.held in
      record {
        others = λ q hc hx. x.kept q hx ∙ c.kept q hc;
        settled = λ v vc vx.
            rw
              (
                e,
                given,
                write_again u quote denied true (contract_path dir) (contract quote entry some_rule)
                    v (vc ∙ c_held),
              )
              (write_again u quote denied true (walkthrough_path dir)
                (walkthrough quote entry some_rule) v (vx ∙ x.held));
      }

  pub write_tests-IsTested :
      (w w' : Work) → write_tests u quote denied false rule dir entry w ≡ ok w' → IsTested w w'
  unfolding write_tests
  write_tests-IsTested w w' h = elim (Option-cases rule) [
    | inl missing ↦
        let e = ok-injective w w' (rw missing at h) in
        record { others = λ q hc hx. rw (sym e) refl; settled = λ v vc vx. rw missing refl }
    | inr (some_rule, found) ↦ elim (Bool-cases (str_eq some_rule.test [])) [
      | inl blank ↦
          let e = ok-injective w w' (rw (found, blank) at h) in
          record {
            others = λ q hc hx. rw (sym e) refl;
            settled = λ v vc vx. rw (found, blank) refl;
          }
      | inr given ↦ tested some_rule w w' found given (rw (found, given) at h)
    ]
  ]
