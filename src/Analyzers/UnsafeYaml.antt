-- ===== src/Analyzers/UnsafeYaml.antt =====
-- src/analyzers/unsafe_yaml_checker.py
use githubprojectforissueide.Prelude.{
  Bool, true, List, [], ◌∷◌, ◌++◌, Option, none, some, if◌then◌else◌, ◌>>=◌, ◌>>◌, guard, select,
}
use githubprojectforissueide.Text.{Text, codes, text_eq, splitlines}
use githubprojectforissueide.Models.{Finding, critical}
use githubprojectforissueide.Syntax.{line_at}
use githubprojectforissueide.Analyzers.Tree.{Node, field, nodes, walk, first_of, value, keywords}
use githubprojectforissueide.Analyzers.Shapes.{
  holds, one_of, filter_map, attr_of, calls_on, is_keyword, has_import,
}
use githubprojectforissueide.Analyzers.Utils.{ParentMap, build_parent_map, line_of}
use githubprojectforissueide.Analyzers.Reports.{report, checked}
use githubprojectforissueide.Analyzers.Rewriting.{
  Printer, build_fix_line, is_same_call, drop_keyword, set_callee_attr, enclosing_statement,
}

abbrev unsafe_loader_names : List Text
unsafe_loader_names = codes "Loader" ∷ codes "UnsafeLoader" ∷ codes "FullLoader" ∷ []

unfoldable pub loader_kwarg : Node → Option Node
unfolding first_of select is_keyword nodes
loader_kwarg n = first_of (select (is_keyword (codes "Loader")) (nodes keywords n))

unfoldable pub is_unsafe_loader_value : Node → Bool
unfolding attr_of one_of
is_unsafe_loader_value n = holds (one_of unsafe_loader_names) (attr_of n)

-- No `Loader`, or an unsafe one.
unfoldable pub loads_unsafely : Node → Bool
unfolding loader_kwarg field is_unsafe_loader_value
loads_unsafely n = elim (loader_kwarg n) [
  | none ↦ true
  | some kw ↦ holds is_unsafe_loader_value (field value kw)
]

unfoldable pub safe_load : Node → Node
unfolding drop_keyword set_callee_attr
safe_load n = drop_keyword (codes "Loader") (set_callee_attr (codes "safe_load") n)

unfoldable pub yaml_finding : Printer → ParentMap → Text → List Text → Node → Option Finding
unfolding calls_on text_eq loads_unsafely line_at line_of build_fix_line is_same_call safe_load
    enclosing_statement report
yaml_finding printer pm filename lines n = do
  guard (calls_on (text_eq (codes "load")) (codes "yaml") n)
  guard (loads_unsafely n)
  line ← line_at lines (line_of n)
  fix ← build_fix_line printer (is_same_call printer n) safe_load (enclosing_statement pm n) line
  some (
      report (codes "unsafe_yaml_checker") filename (line_of n) 0 (codes "security") critical
        (codes
            "yaml.load(...) with no Loader (or an unsafe one) can construct arbitrary Python objects from "
          ++ codes
              "the input — a known code-execution risk if the YAML comes from an untrusted source. Use "
          ++ codes "yaml.safe_load(...) instead.")
        line fix)

unfoldable pub detect_unsafe_yaml_load : (Text → Option Node) → Printer → Text → Text → List Finding
unfolding checked has_import filter_map walk splitlines build_parent_map yaml_finding
detect_unsafe_yaml_load parse printer code filename = checked parse code (λ tree.
    if has_import (codes "yaml") (walk tree)
    then filter_map (yaml_finding printer (build_parent_map tree) filename (splitlines code))
        (walk tree)
    else [])
