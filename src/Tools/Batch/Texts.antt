-- ===== src/Tools/Batch/Texts.antt =====
-- The texts that cmd/releasebatch2 and cmd/releasebatch3 write. `quote` is the verb %q.
use noqeri_registry.Prelude.{List, [], ◌∷◌, ◌++◌, length}
use noqeri_registry.Prelude.Text.{Bytes, Unicode, codes, trim_space}
use noqeri_registry.Prelude.Number.{format_nat}
use noqeri_registry.Tools.Names.{names}
use noqeri_registry.Tools.Upgrade.Texts.{bullets}

pub record Spec : Type 0 where
  pub entry : Bytes
  pub module_name : Bytes
  pub purpose : Bytes
  pub limitations : Bytes
  pub source : Bytes
  pub regression : Bytes
  pub example : Bytes

unfoldable pub entry_path : Spec → Bytes
unfolding codes
entry_path v = codes "src/" ++ (v.entry ++ codes ".noqeri")

unfoldable pub manifest_text : (Bytes → Bytes) → Bytes → Spec → Bytes
unfolding codes entry_path
manifest_text quote n v =
    codes "package {\n    name: "
    ++ (quote (codes "noqeri/" ++ n)
        ++ (codes "\n    version: \"0.1.1\"\n    edition: \"2026\"\n    entry: "
            ++ (quote (entry_path v)
                ++ codes
                    "\n    profile: \"library\"\n    target: \"portable\"\n    license: \"MIT\"\n}\n")))

-- The first two lines of the test and of the example.
unfoldable pub preamble : (Bytes → Bytes) → Spec → Bytes
unfolding codes entry_path
preamble quote v =
    codes "// SPDX-License-Identifier: MIT\nimport "
    ++ (quote (codes "../" ++ entry_path v) ++ b'\n' ∷ [])

unfoldable pub test_text : Unicode → (Bytes → Bytes) → Spec → Bytes
unfolding codes preamble trim_space
test_text u quote v =
    preamble quote v
    ++ (codes "function main(): int {\n"
        ++ (trim_space u v.regression ++ codes "\n    return 0\n}\nprint(main())\n"))

unfoldable pub example_text : Unicode → (Bytes → Bytes) → Spec → Bytes
unfolding codes preamble trim_space
example_text u quote v = preamble quote v ++ (trim_space u v.example ++ b'\n' ∷ [])

abbrev exports : Unicode → Spec → List Bytes
exports u v = names u v.source (codes "export function ")

abbrev externs : Unicode → Spec → List Bytes
externs u v = names u v.source (codes "extern function ")

unfoldable pub api_text : Unicode → Bytes → Spec → Bytes
unfolding codes names bullets format_nat
api_text u n v =
    codes "# noqeri/"
    ++ (n
        ++ (codes " 0.1.1 API Reference\n\n## "
            ++ (format_nat (length (exports u v))
                ++ (codes " exported functions\n\n"
                    ++ (bullets (exports u v)
                        ++ (codes "\n## "
                            ++ (format_nat (length (externs u v))
                                ++ (codes " external host bindings\n\n"
                                    ++ (bullets (externs u v)
                                        ++ (codes "\n## Scope\n\n"
                                            ++ (v.purpose
                                                ++ (codes "\n\n## Limitations\n\n"
                                                    ++ (v.limitations ++ b'\n' ∷ [])))))))))))))

unfoldable pub readme_text : Unicode → Bytes → Spec → Bytes
unfolding codes names format_nat
readme_text u n v =
    codes "# noqeri/"
    ++ (n
        ++ (codes " 0.1.1\n\n**International preview | MIT | Noqeri Edition 2026**\n\n"
            ++ (v.purpose
                ++ (codes "\n\nThe new implementation exports "
                    ++ (format_nat (length (exports u v))
                        ++ (codes
                              " functions. Refer to API_REFERENCE.md for full details and host bindings.\n\n## Run\n\nnoqeri check tests/regression.noqeri\n\nnoqeri run tests/regression.noqeri\n\nThe pure-logic tests must print 0. Hosted functions require external integration tests.\n\n## Limitations\n\n"
                            ++ (v.limitations
                                ++ codes
                                    "\n\nOld GPL-3.0-only releases retain their original notices. This new source is MIT.\n")))))))

unfoldable pub notes_text : Bytes → Spec → Bytes
unfolding codes
notes_text n v =
    codes "# 0.1.1 release: noqeri/"
    ++ (n
        ++ (codes
              "\n\nExpanded Noqeri APIs, regression tests and examples, new MIT-licensed original source, distinct from historical versions.\n\n"
            ++ (v.limitations ++ b'\n' ∷ [])))
