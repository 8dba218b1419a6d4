-- ===== src/Analyzers/HttpTimeout.antt =====
-- src/analyzers/http_timeout_checker.py
use githubprojectforissueide.Prelude.{
  Bool, false, not, List, [], ◌∷◌, ◌++◌, Option, some, any, if◌then◌else◌, ◌>>=◌, ◌>>◌, guard,
}
use githubprojectforissueide.Text.{Text, codes, text_eq, splitlines}
use githubprojectforissueide.Models.{Finding, warning}
use githubprojectforissueide.Syntax.{line_at}
use githubprojectforissueide.Analyzers.Tree.{
  keyword, Node, Kind, kind, field, nodes, walk, constant, integer, value, func, keywords, names,
  alias, import_from, import_stmt, node, end, child,
}
use githubprojectforissueide.Analyzers.Shapes.{
  one_of, filter_map, attr_of, is_attribute_on, is_call, is_keyword,
}
use githubprojectforissueide.Analyzers.Utils.{ParentMap, build_parent_map, line_of}
use githubprojectforissueide.Analyzers.Reports.{report, checked}
use githubprojectforissueide.Analyzers.Rewriting.{
  Printer, build_fix_line, is_same_call, add_keyword, enclosing_statement, nowhere,
}

abbrev http_methods : List Text
http_methods =
    codes "get"
    ∷ codes "post"
    ∷ codes "put"
    ∷ codes "delete"
    ∷ codes "patch"
    ∷ codes "head"
    ∷ codes "options"
    ∷ []

-- `timeout=10`
abbrev timeout_keyword : Node
timeout_keyword =
    node nowhere (keyword (some (codes "timeout")))
      (child value (node nowhere (constant (integer 10)) end) end)

abbrev names_requests : Kind → Bool
names_requests (alias n asname) = text_eq n (codes "requests")
names_requests _ = false

abbrev kind_imports_requests : Kind → List Node → Bool
kind_imports_requests import_stmt aliases = any (λ a. names_requests (kind a)) aliases
kind_imports_requests (import_from (some m)) aliases = text_eq m (codes "requests")
kind_imports_requests _ aliases = false

unfoldable pub imports_requests : List Node → Bool
unfolding any kind nodes text_eq
imports_requests ns = any (λ n. kind_imports_requests (kind n) (nodes names n)) ns

unfoldable pub has_timeout_kwarg : Node → Bool
unfolding any is_keyword nodes
has_timeout_kwarg n = any (is_keyword (codes "timeout")) (nodes keywords n)

unfoldable pub timeout_finding : Printer → ParentMap → Text → List Text → Node → Option Finding
unfolding is_call field is_attribute_on one_of attr_of has_timeout_kwarg line_at line_of
    build_fix_line is_same_call add_keyword enclosing_statement report
timeout_finding printer pm filename lines n = do
  guard (is_call n)
  callee ← field func n
  guard (is_attribute_on (one_of http_methods) (codes "requests") callee)
  attr ← attr_of callee
  guard (not (has_timeout_kwarg n))
  line ← line_at lines (line_of n)
  fix ←
      build_fix_line printer (is_same_call printer n) (add_keyword timeout_keyword)
        (enclosing_statement pm n) line
  some (
      report (codes "http_timeout_checker") filename (line_of n) 0 (codes "runtime") warning
        (codes "requests."
          ++ attr
          ++ codes
              "(...) has no timeout — can hang indefinitely against a slow or unresponsive server.")
        line fix)

unfoldable pub detect_unguarded_http_calls :
    (Text → Option Node) → Printer → Text → Text → List Finding
unfolding checked imports_requests filter_map walk splitlines build_parent_map timeout_finding
detect_unguarded_http_calls parse printer code filename = checked parse code (λ tree.
    if imports_requests (walk tree)
    then filter_map (timeout_finding printer (build_parent_map tree) filename (splitlines code))
        (walk tree)
    else [])
