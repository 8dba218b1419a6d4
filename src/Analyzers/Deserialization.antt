-- ===== src/Analyzers/Deserialization.antt =====
-- src/analyzers/insecure_deserialization_checker.py
use githubprojectforissueide.Prelude.{
  List, [], ◌∷◌, ◌++◌, Option, some, if◌then◌else◌, ◌>>=◌, ◌>>◌, guard,
}
use githubprojectforissueide.Text.{Text, codes, splitlines}
use githubprojectforissueide.Models.{Finding, critical}
use githubprojectforissueide.Syntax.{line_at}
use githubprojectforissueide.Analyzers.Tree.{Node, field, walk, func}
use githubprojectforissueide.Analyzers.Shapes.{
  one_of, filter_map, attr_of, is_attribute_on, is_call, has_import,
}
use githubprojectforissueide.Analyzers.Utils.{line_of}
use githubprojectforissueide.Analyzers.Reports.{report, checked}

abbrev unsafe_funcs : List Text
unsafe_funcs = codes "load" ∷ codes "loads" ∷ []

unfoldable pub deserialization_finding : Text → List Text → Node → Option Finding
unfolding is_call field is_attribute_on one_of attr_of line_of line_at report
deserialization_finding filename lines n = do
  guard (is_call n)
  callee ← field func n
  guard (is_attribute_on (one_of unsafe_funcs) (codes "pickle") callee)
  attr ← attr_of callee
  line ← line_at lines (line_of n)
  some (
      report (codes "insecure_deserialization_checker") filename (line_of n) 0 (codes "security")
        critical
        (codes "pickle."
          ++ attr
          ++ codes
              "(...) can execute arbitrary code embedded in the pickle stream — deserializing data "
          ++ codes
              "from any source you don't fully trust is a remote-code-execution risk, not just a "
          ++ codes
              "data-integrity one. Use json (or another data-only format) instead, or verify the source "
          ++ codes "is trusted/signed.")
        line [])

unfoldable pub detect_insecure_deserialization : (Text → Option Node) → Text → Text → List Finding
unfolding checked has_import filter_map walk splitlines deserialization_finding
detect_insecure_deserialization parse code filename = checked parse code (λ tree.
    if has_import (codes "pickle") (walk tree)
    then filter_map (deserialization_finding filename (splitlines code)) (walk tree)
    else [])
