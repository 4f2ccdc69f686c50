-- ===== src/Tools/Upgrade/Texts.antt =====
-- The texts that cmd/packageupgrade writes. `quote` is the verb %q.
use noqeri_registry.Prelude.{
  Bool, false, not, ◌&&◌, List, [], ◌∷◌, ◌++◌, Option, none, some, length, if◌then◌else◌,
}
use noqeri_registry.Prelude.Text.{Bytes, Unicode, codes, str_eq, has_suffix, contains, trim_space}
use noqeri_registry.Prelude.Number.{format_nat}

pub record Upgrade : Type 0 where
  pub about : Bytes
  pub source : Bytes
  pub test : Bytes

-- The name of a package and a version of it.
abbrev pub Naming : Type 0
Naming = Bytes × Bytes

unfoldable pub marker : Bytes
unfolding codes
marker = codes "// REGISTRY_CAPABILITY_UPGRADE_V2"

unfoldable pub readme_marker : Bytes
unfolding codes
readme_marker = codes "REGISTRY_CAPABILITY_DOC_V2"

unfoldable pub is_enhanced : Option Upgrade → Bytes → Bool
is_enhanced none content = false
is_enhanced (some rule) content = not (str_eq rule.source []) && not (contains content marker)

abbrev pub source_of : Option Upgrade → Bytes
source_of none = []
source_of (some rule) = rule.source

unfoldable pub addition : Unicode → Bytes → Bytes
addition u source = b'\n' ∷ (marker ++ b'\n' ∷ (trim_space u source ++ b'\n' ∷ []))

-- The source with the rule's own source behind it.
unfoldable pub enhanced : Unicode → Option Upgrade → Bytes → Bytes
enhanced u rule content =
    if is_enhanced rule content then content ++ addition u (source_of rule) else content

-- What both test files have in common.
unfoldable pub program : (Bytes → Bytes) → Bytes → Upgrade → Bytes
unfolding codes
program quote entry rule =
    codes "import "
    ++ (quote (codes "../" ++ entry)
        ++ (codes "\nfunction main(): int {\n"
            ++ (rule.test ++ codes "\n    return 0\n}\nprint(main())\n")))

unfoldable pub contract : (Bytes → Bytes) → Bytes → Upgrade → Bytes
unfolding codes program
contract quote entry rule =
    codes
      "// SPDX-License-Identifier: GPL-3.0-only\n// Executable positive and negative capability contract.\n"
    ++ program quote entry rule

unfoldable pub walkthrough : (Bytes → Bytes) → Bytes → Upgrade → Bytes
unfolding codes program
walkthrough quote entry rule =
    codes
      "// SPDX-License-Identifier: GPL-3.0-only\n// Working capability example with visible positive and negative cases.\n"
    ++ program quote entry rule

unfoldable pub bullets : List Bytes → Bytes
unfolding codes
bullets [] = []
bullets (name ∷ ns) = codes "- " ++ (name ++ b'\n' ∷ bullets ns)

unfoldable pub exported : List Bytes → Bytes
unfolding codes bullets
exported [] = codes "No public functions in this release.\n"
exported (name ∷ ns) = bullets (name ∷ ns)

unfoldable pub bindings : List Bytes → Bytes
unfolding codes bullets
bindings [] = []
bindings (name ∷ ns) =
    codes "\n## External host bindings required\n\n"
    ++ (bullets (name ∷ ns)
        ++ codes
            "\nThese declarations need real host implementations; compiling does not provide network, database or cryptographic services.\n")

unfoldable pub standing : Option Upgrade → Bytes
unfolding codes
standing (some rule) =
    codes "\n## Expanded functionality\n\n"
    ++ (rule.about
        ++ codes "\n\nRun tests/capability_regression.noqeri using a compatible Noqeri compiler.\n")
standing none =
    codes
      "\n## Capability status\n\nNo new algorithm was introduced for this module in this pass. Existing APIs remain experimental unless separately verified.\n"

-- API_REFERENCE.md
unfoldable pub api_reference : Naming → Bytes → List Bytes → List Bytes → Option Upgrade → Bytes
unfolding codes format_nat exported bindings standing
api_reference (name, version) entry funcs ext rule =
    codes "# "
    ++ (name
        ++ b' '
          ∷ (version
              ++ (codes " API inventory\n\n"
                  ++ (codes
                        "Generated from the release's Noqeri source. **Listed does not mean tested or production-qualified.**\n\n"
                      ++ (codes "- Entry: "
                          ++ (entry
                              ++ (codes "\n- Exported functions: "
                                  ++ (format_nat (length funcs)
                                      ++ (codes "\n- Host externs: "
                                          ++ (format_nat (length ext)
                                              ++ (codes "\n\n## Exported API\n\n"
                                                  ++ (exported funcs
                                                      ++ (bindings ext ++ standing rule)))))))))))))

abbrev pub contents : Option Bytes → Bytes
contents none = []
contents (some text) = text

abbrev pub ended : Bytes → Bytes
ended [] = []
ended (c ∷ s) = if has_suffix (c ∷ s) (b'\n' ∷ []) then c ∷ s else (c ∷ s) ++ b'\n' ∷ []

unfoldable pub notice : Bytes
unfolding codes readme_marker
notice =
    codes "\n<!-- "
    ++ (readme_marker
        ++ codes
            " -->\n\n## API inventory and evidence\n\nRead [API_REFERENCE.md](API_REFERENCE.md) for exported functions, required host bindings and actual capability status. Source uses .noqeri and bytecode uses .nqri. Compiler compatibility and runtime behavior require independent verification.\n")

-- README.md with the notice behind it, if it has none.
unfoldable pub noticed : Option Bytes → Bytes
noticed original =
    if contains (contents original) readme_marker
    then contents original
    else ended (contents original) ++ notice
