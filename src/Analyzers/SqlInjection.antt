-- ===== src/Analyzers/SqlInjection.antt =====
-- src/analyzers/sql_injection_checker.py
use githubprojectforissueide.Prelude.{
  Bool, true, false, ◌&&◌, ◌||◌, List, [], ◌++◌, Option, some, any, if◌then◌else◌, ◌>>=◌, ◌>>◌,
  guard,
}
use githubprojectforissueide.Text.{Text, codes, text_eq, splitlines}
use githubprojectforissueide.Models.{Finding, critical}
use githubprojectforissueide.Syntax.{line_at}
use githubprojectforissueide.Analyzers.Tree.{
  Node, Kind, Operator, kind, field, nodes, walk, first_of, joined_str, formatted_value, mod_op,
  add, targets, value, values, func, args,
}
use githubprojectforissueide.Analyzers.Shapes.{
  holds, filter_map, name_of, is_named, attr_of, is_call, operator_of, is_assign,
}
use githubprojectforissueide.Analyzers.Utils.{ParentMap, build_parent_map, line_of}
use githubprojectforissueide.Analyzers.Reports.{report, checked, scope_of}

abbrev kind_is_interpolation : Kind → Bool
kind_is_interpolation joined_str = true
kind_is_interpolation _ = false

abbrev kind_is_formatted : Kind → Bool
kind_is_formatted formatted_value = true
kind_is_formatted _ = false

abbrev is_mod_or_add : Operator → Bool
is_mod_or_add mod_op = true
is_mod_or_add add = true
is_mod_or_add _ = false

unfoldable pub is_unsafe_query_expr : Node → Bool
unfolding kind any nodes operator_of
is_unsafe_query_expr n =
    if kind_is_interpolation (kind n)
    then any (λ v. kind_is_formatted (kind v)) (nodes values n)
    else holds is_mod_or_add (operator_of n)

unfoldable pub assigned_unsafely_in_scope : Node → Text → Bool
unfolding any walk is_assign nodes is_named field is_unsafe_query_expr
assigned_unsafely_in_scope scope t =
    any
      (λ n.
        is_assign n
        && any (is_named t) (nodes targets n)
        && holds is_unsafe_query_expr (field value n))
      (walk scope)

-- The query, or the assignments to its name in the function around the call.
unfoldable pub is_unsafe_query : ParentMap → Node → Node → Node → Bool
unfolding is_unsafe_query_expr name_of scope_of assigned_unsafely_in_scope
is_unsafe_query pm tree n query =
    is_unsafe_query_expr query
    || holds (assigned_unsafely_in_scope (scope_of pm tree n)) (name_of query)

unfoldable pub sql_finding : ParentMap → Node → Text → List Text → Node → Option Finding
unfolding is_call field attr_of text_eq nodes first_of is_unsafe_query line_of line_at report
sql_finding pm tree filename lines n = do
  guard (is_call n)
  callee ← field func n
  guard (holds (text_eq (codes "execute")) (attr_of callee))
  query ← first_of (nodes args n)
  guard (is_unsafe_query pm tree n query)
  line ← line_at lines (line_of n)
  some (
      report (codes "sql_injection_checker") filename (line_of n) 0 (codes "security") critical
        (codes
            "SQL query is built via string interpolation/concatenation and passed to .execute(...) — "
          ++ codes
              "vulnerable to SQL injection. Use a parameterized query instead (e.g. cursor.execute(\"... "
          ++ codes "WHERE id = ?\", (user_id,))).")
        line [])

unfoldable pub detect_sql_injection : (Text → Option Node) → Text → Text → List Finding
unfolding checked filter_map walk splitlines build_parent_map sql_finding
detect_sql_injection parse code filename = checked parse code (λ tree.
    filter_map (sql_finding (build_parent_map tree) tree filename (splitlines code)) (walk tree))
