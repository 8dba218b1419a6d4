-- ===== src/Analyzers/FileExists.antt =====
-- src/analyzers/file_exists_checker.py
use githubprojectforissueide.Prelude.{
  ◌-◌, Bool, not, ◌&&◌, ◌||◌, List, [], ◌∷◌, ◌++◌, Option, none, some, any, length, map,
  if◌then◌else◌, ◌>>=◌, ◌>>◌, guard, leb,
}
use githubprojectforissueide.Text.{Text, codes, splitlines, join_lines}
use githubprojectforissueide.Models.{Finding, warning}
use githubprojectforissueide.Syntax.{line_at}
use githubprojectforissueide.Analyzers.Tree.{Node, field, nodes, walk, first_of, func, args}
use githubprojectforissueide.Analyzers.Shapes.{
  holds, one_of, filter_map, is_statement, name_of, attr_of, is_call, calls_name, has_argument,
}
use githubprojectforissueide.Analyzers.Utils.{
  ParentMap, build_parent_map, owning_function, catches, line_indent, statement_loop, line_of,
  end_line_of,
}
use githubprojectforissueide.Analyzers.Reports.{report, once, checked}
use githubprojectforissueide.Syntax.{slice as cut}

unfoldable pub guards_file : Text → Node → Bool
unfolding is_call field attr_of one_of has_argument catches
guards_file t n =
    (is_call n
      && holds (λ f. holds (one_of (codes "exists" ∷ codes "isfile" ∷ [])) (attr_of f))
          (field func n)
      && has_argument t n)
    || catches (codes "FileNotFoundError" ∷ codes "OSError" ∷ codes "Exception" ∷ []) n

unfoldable pub owning_statement : ParentMap → Node → Option Node
unfolding statement_loop is_statement
owning_statement pm n =
    let current = statement_loop pm.depth pm n in
    if is_statement current then some current else none

-- The statement in a `try`, which names the file that is missing.
unfoldable pub wrapped : Text → Text → List Text → Text
unfolding join_lines
wrapped indent_text path statement_lines =
    indent_text
    ++ codes "try:\n"
    ++ join_lines (map (λ line. codes "    " ++ line) statement_lines)
    ++ codes "\n"
    ++ indent_text
    ++ codes "except FileNotFoundError:\n"
    ++ indent_text
    ++ codes "    raise FileNotFoundError(f\"File not found: {"
    ++ path
    ++ codes "}\")"

unfoldable pub open_finding : ParentMap → Text → List Text → Node → Option Finding
unfolding calls_name nodes first_of name_of owning_function any guards_file walk owning_statement
    line_of line_at end_line_of line_indent wrapped report
open_finding pm filename lines n = do
  guard (calls_name (codes "open") n)
  argument ← first_of (nodes args n)
  path ← name_of argument
  scope ← owning_function pm n
  guard (not (any (guards_file path) (walk scope)))
  statement ← owning_statement pm n
  line ← line_at lines (line_of statement)
  let last = end_line_of statement
  guard (leb (line_of statement) last && leb last (length lines))
  some (
      report (codes "file_exists_checker") filename (line_of statement) last (codes "runtime")
        warning
        (codes "open("
          ++ path
          ++ codes
              ", ...) has no guard against a missing file — raises FileNotFoundError if the path "
          ++ codes "doesn't exist.")
        line (wrapped (line_indent line) path (cut (line_of statement - 1) last lines)))

unfoldable pub detect_unguarded_file_open : (Text → Option Node) → Text → Text → List Finding
unfolding checked once filter_map walk splitlines build_parent_map open_finding
detect_unguarded_file_open parse code filename = checked parse code (λ tree.
    once []
      (filter_map (open_finding (build_parent_map tree) filename (splitlines code)) (walk tree)))
