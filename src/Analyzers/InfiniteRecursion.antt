-- ===== src/Analyzers/InfiniteRecursion.antt =====
-- src/analyzers/infinite_recursion_checker.py
use githubprojectforissueide.Prelude.{
  Bool, true, false, not, List, [], ◌∷◌, ◌++◌, Option, some, any, if◌then◌else◌, ◌>>=◌, ◌>>◌, guard,
}
use githubprojectforissueide.Text.{Text, codes, splitlines}
use githubprojectforissueide.Models.{Finding, critical}
use githubprojectforissueide.Syntax.{line_at}
use githubprojectforissueide.Analyzers.Tree.{
  Node, Kind, kind, nodes, walk, return_stmt, while_loop, if_stmt, try_stmt, for_loop, with_stmt,
  break_stmt, continue_stmt, yield_expr, yield_from, decorator_list, Children, node, end, child,
  absent,
}
use githubprojectforissueide.Analyzers.Shapes.{
  filter_map, is_function, calls_name, is_scope_boundary, definition_name,
}
use githubprojectforissueide.Analyzers.Utils.{line_of}
use githubprojectforissueide.Analyzers.Reports.{report, checked}

abbrev kind_disqualifies : Kind → Bool
kind_disqualifies if_stmt = true
kind_disqualifies while_loop = true
kind_disqualifies (for_loop a) = true
kind_disqualifies try_stmt = true
kind_disqualifies return_stmt = true
kind_disqualifies break_stmt = true
kind_disqualifies continue_stmt = true
kind_disqualifies (with_stmt a) = true
kind_disqualifies yield_expr = true
kind_disqualifies yield_from = true
kind_disqualifies _ = false

-- The nodes below a node, depth first, without those below a nested scope.
unfoldable mutual
  unfolding is_scope_boundary

  pub own_scope_nodes : Node → List Node
  own_scope_nodes (node p k cs) = own_scope_of cs

  pub own_scope_of : Children → List Node
  own_scope_of end = []
  own_scope_of (child f n cs) =
      n ∷ ((if is_scope_boundary n then [] else own_scope_nodes n) ++ own_scope_of cs)
  own_scope_of (absent f cs) = own_scope_of cs

unfoldable pub calls_itself : Node → Text → Bool
unfolding any own_scope_nodes calls_name
calls_itself scope t = any (calls_name t) (own_scope_nodes scope)

unfoldable pub has_disqualifying_control_flow : Node → Bool
unfolding any own_scope_nodes kind
has_disqualifying_control_flow scope = any (λ n. kind_disqualifies (kind n)) (own_scope_nodes scope)

-- `not func.decorator_list`
abbrev none_of : List Node → Bool
none_of [] = true
none_of (n ∷ ns) = false

unfoldable pub recursion_finding : Text → List Text → Node → Option Finding
unfolding is_function nodes has_disqualifying_control_flow calls_itself definition_name line_of
    line_at report
recursion_finding filename lines n = do
  guard (is_function n)
  guard (none_of (nodes decorator_list n))
  guard (not (has_disqualifying_control_flow n))
  guard (calls_itself n (definition_name n))
  line ← line_at lines (line_of n)
  some (
      report (codes "infinite_recursion_checker") filename (line_of n) 0 (codes "runtime") critical
        (codes "'"
          ++ definition_name n
          ++ codes
              "' calls itself unconditionally, with no if/while/for/try/return anywhere in its body to "
          ++ codes "ever stop the recursion — guaranteed RecursionError on every call.")
        line [])

unfoldable pub detect_unconditional_self_recursion :
    (Text → Option Node) → Text → Text → List Finding
unfolding checked filter_map walk splitlines recursion_finding
detect_unconditional_self_recursion parse code filename =
    checked parse code
      (λ tree. filter_map (recursion_finding filename (splitlines code)) (walk tree))
