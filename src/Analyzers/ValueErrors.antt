-- ===== src/Analyzers/ValueErrors.antt =====
-- src/analyzers/value_error_checker.py
use githubprojectforissueide.Prelude.{
  Bool, not, List, [], ◌∷◌, ◌++◌, Option, none, some, ◌>>=◌, ◌>>◌, guard,
}
use githubprojectforissueide.Text.{Text, codes, splitlines}
use githubprojectforissueide.Models.{Finding, critical}
use githubprojectforissueide.Syntax.{line_at}
use githubprojectforissueide.Analyzers.Tree.{Node, field, nodes, walk, func, args, keywords}
use githubprojectforissueide.Analyzers.Shapes.{one_of, filter_map, name_of, is_call, string_of}
use githubprojectforissueide.Analyzers.Utils.{
  ParentMap, build_parent_map, line_indent, owning_statement_line,
}
use githubprojectforissueide.Analyzers.Reports.{report, once, single_assignment, checked}

abbrev converters : List Text
converters = codes "int" ∷ codes "float" ∷ []

-- The argument as a text that is known, and how it is described.
unfoldable pub known_text : Node → Node → Option (Text × Text)
unfolding string_of name_of single_assignment
known_text tree n = elim (string_of n) [
  | some s ↦ some (s, codes "the literal \"" ++ s ++ codes "\"")
  | none ↦ do
    t ← name_of n
    v ← single_assignment tree t
    s ← string_of v
    some (s, codes "'" ++ t ++ codes "', which was assigned \"" ++ s ++ codes "\"")
]

-- The only argument of a call that has no keywords.
unfoldable pub only_argument : Node → Option Node
unfolding nodes
only_argument n = elim (nodes keywords n) [
  | [] ↦ elim (nodes args n) [ [] ↦ none | a ∷ [] ↦ some a | _ ↦ none ]
  | _ ↦ none
]

-- `converts` says whether `int(text)` or `float(text)` yields a value.
unfoldable pub value_finding :
    (Text → Text → Bool) → ParentMap → Node → Text → List Text → Node → Option Finding
unfolding is_call field name_of one_of only_argument known_text owning_statement_line line_at
    line_indent report
value_finding converts pm tree filename lines n = do
  guard (is_call n)
  callee ← field func n
  converter ← name_of callee
  guard (one_of converters converter)
  argument ← only_argument n
  t ← known_text tree argument
  guard (not (converts converter t.0))
  line ← line_at lines (owning_statement_line pm n)
  some (
      report (codes "value_error_checker") filename (owning_statement_line pm n) 0 (codes "runtime")
        critical
        (converter
          ++ codes "("
          ++ t.1
          ++ codes ") — guaranteed ValueError every time this line runs, not just a possible one.")
        line
        (line_indent line
          ++ codes "raise ValueError(\""
          ++ converter
          ++ codes
              "() argument on this line always fails to convert -- fix the value being converted\")\n"
          ++ line))

unfoldable pub detect_guaranteed_value_errors :
    (Text → Option Node) → (Text → Text → Bool) → Text → Text → List Finding
unfolding checked once filter_map walk splitlines build_parent_map value_finding
detect_guaranteed_value_errors parse converts code filename = checked parse code (λ tree. once [] (
    filter_map (value_finding converts (build_parent_map tree) tree filename (splitlines code))
      (walk tree)))
