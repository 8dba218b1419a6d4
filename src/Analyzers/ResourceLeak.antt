-- ===== src/Analyzers/ResourceLeak.antt =====
-- src/analyzers/resource_leak_checker.py
use githubprojectforissueide.Prelude.{
  ◌==◌, Bool, false, not, ◌&&◌, ◌||◌, List, [], ◌∷◌, ◌++◌, Option, none, some, any, ◌>>=◌, ◌>>◌,
  guard,
}
use githubprojectforissueide.Text.{Text, codes, text_eq, splitlines}
use githubprojectforissueide.Models.{Finding, warning}
use githubprojectforissueide.Syntax.{line_at}
use githubprojectforissueide.Analyzers.Tree.{
  Node, Kind, kind, place, field, nodes, walk, with_stmt, targets, value, items, context_expr,
}
use githubprojectforissueide.Analyzers.Shapes.{
  holds, filter_map, name_of, is_named, is_call, calls_name, calls_on, has_argument, is_assign,
  is_return,
}
use githubprojectforissueide.Analyzers.Utils.{
  identity, ParentMap, build_parent_map, parent_of, line_of,
}
use githubprojectforissueide.Analyzers.Reports.{report, checked, scope_of}

unfoldable pub is_open_call : Node → Bool
unfolding calls_name
is_open_call = calls_name (codes "open")

abbrev kind_is_with : Kind → Bool
kind_is_with (with_stmt is_async) = not is_async
kind_is_with _ = false

-- `isinstance(node, ast.With)`
unfoldable pub is_with : Node → Bool
unfolding kind
is_with n = kind_is_with (kind n)

-- A node that closes, passes on, returns or enters the handle `t`.
unfoldable pub releases : Text → Node → Bool
unfolding is_call calls_on text_eq has_argument is_return is_named field is_with any nodes
releases t n =
    calls_on (text_eq (codes "close")) t n
    || (is_call n && has_argument t n)
    || (is_return n && holds (is_named t) (field value n))
    || (is_with n && any (λ item. holds (is_named t) (field context_expr item)) (nodes items n))

unfoldable pub is_closed_returned_or_passed : Node → Text → Node → Bool
unfolding any walk place releases
is_closed_returned_or_passed scope t assign_node =
    any (λ n. not (identity n == identity assign_node) && releases t n) (walk scope)

-- The name of the only target.
unfoldable pub single_target : Node → Option Text
unfolding nodes name_of
single_target n = elim (nodes targets n) [ [] ↦ none | t ∷ [] ↦ name_of t | _ ↦ none ]

unfoldable pub leak_finding : ParentMap → Node → Text → List Text → Node → Option Finding
unfolding is_assign field is_open_call single_target is_with parent_of scope_of
    is_closed_returned_or_passed line_of line_at report
leak_finding pm tree filename lines n = do
  guard (is_assign n)
  opened ← field value n
  guard (is_open_call opened)
  t ← single_target n
  guard (not (holds is_with (parent_of pm n)))
  guard (not (is_closed_returned_or_passed (scope_of pm tree n) t n))
  line ← line_at lines (line_of n)
  some (
      report (codes "resource_leak_checker") filename (line_of n) 0 (codes "runtime") warning
        (codes "'"
          ++ t
          ++ codes
              "' is opened via open(...) but never closed, returned, or passed elsewhere — the file "
          ++ codes "handle leaks for the rest of the process's lifetime. Use `with open(...) as "
          ++ t
          ++ codes ":` instead.")
        line [])

unfoldable pub detect_unclosed_file_handles : (Text → Option Node) → Text → Text → List Finding
unfolding checked filter_map walk splitlines build_parent_map leak_finding
detect_unclosed_file_handles parse code filename = checked parse code (λ tree.
    filter_map (leak_finding (build_parent_map tree) tree filename (splitlines code)) (walk tree))
