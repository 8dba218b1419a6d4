-- ===== src/Examples/Analyzers.antt =====
-- Examples for the checkers of src/analyzers.
use githubprojectforissueide.Prelude.{
  ℕ, ◌≤◌, ◌≡◌, ◌≢◌, ◌↔◌, refl, true, false, List, [], ◌∷◌, Option, none, some, inl, inr, arith,
  select, count,
}
use githubprojectforissueide.Text.{Text, codes, splitlines, contains}
use githubprojectforissueide.Syntax.{Python}
use githubprojectforissueide.Analyzers.Tree.{
  Node, Kind, Children, node, end, child, module_root, function_def, return_stmt, bin_op, div,
  constant, integer, arguments, arg, name, body, args, value, left, right, walk, child_nodes,
  nodes_in, levels_below, concat, place,
}
use githubprojectforissueide.Analyzers.Utils.{
  build_parent_map, owning_function, owning_statement_line, or_else, line_of,
}
use githubprojectforissueide.Analyzers.Names.{Unrepeated}
use githubprojectforissueide.Analyzers.Paths.{Under, here, down, HasIdentities, In, Distinct}
use githubprojectforissueide.Analyzers.Owners.{
  enclosing_function, enclosing_statement, owning_function-enclosing,
  owning_statement_line-enclosing,
}
use githubprojectforissueide.Analyzers.Once.{lines_of}
use githubprojectforissueide.Analyzers.Division.{
  detect_unguarded_division, literal_zero_division_findings,
}
use githubprojectforissueide.Analyzers.Division.ByZero.{
  DividesByZero, literal_zero_division_findings_lines,
}
use githubprojectforissueide.Review.Grounding.{is_valid_fix}
use githubprojectforissueide.Review.Agents.{run_checkers}
use githubprojectforissueide.Analyzers.Registry.{Tools, registered_checkers}
use githubprojectforissueide.Analyzers.Grounded.{registered_checkers_trusted}
use githubprojectforissueide.Review.Selected.{found_by}
use githubprojectforissueide.Analyzers.Shapes.{is_function, is_statement}
use githubprojectforissueide.Analyzers.UndefinedNames.{spans, enclosing_function_at}
use githubprojectforissueide.Analyzers.UndefinedNames.Innermost.{enclosing_function_at_innermost}
use githubprojectforissueide.Analyzers.UnusedImports.{Edit, Diagnostic, sort_diagnostics}
use githubprojectforissueide.Analyzers.UnusedImports.Counted.{
  spans_of, listed, left_at, deletes, stays, sort_diagnostics_total,
}

-- A node on one line of the file.
abbrev pub at_line : ℕ → ℕ → Kind → Children → Node
at_line i line k cs =
    node (record { identity = i; lineno = some line; end_lineno = some line; col_offset = 0 }) k cs

-- def f(xs):
--     return xs / 0
abbrev code : Text
code = codes "def f(xs):\n    return xs / 0\n"

abbrev division : Node
division = at_line 5 2 (bin_op div) (
    child left (at_line 6 2 (name (codes "xs") false) end)
      (child right (at_line 7 2 (constant (integer 0)) end) end))

abbrev returns : Node
returns = at_line 4 2 return_stmt (child value division end)

abbrev params : Node
params = at_line 2 1 arguments (child args (at_line 3 1 (arg (codes "xs")) end) end)

abbrev function : Node
function = at_line 1 1 (function_def false (codes "f")) (child args params (child body returns end))

abbrev tree : Node
tree = at_line 0 0 module_root (child body function end)

abbrev parse : Text → Option Node
parse t = some tree

reported : lines_of (detect_unguarded_division parse code (codes "f.py")) ≡ 2 ∷ []
unfolding detect_unguarded_division
reported = refl

abbrev to_function : Under tree function
unfolding child_nodes nodes_in
to_function = down here (inl refl)

abbrev to_return : Under tree returns
unfolding child_nodes nodes_in
to_return = down to_function (inr (inl refl))

abbrev to_division : Under tree division
unfolding child_nodes nodes_in
to_division = down to_return (inl refl)

tree_identities : HasIdentities tree
unfolding walk levels_below concat place
tree_identities = omega arith

owning_function-enclosing_example :
    owning_function (build_parent_map tree) division ≡ enclosing_function to_division
owning_function-enclosing_example =
    owning_function-enclosing tree division to_division tree_identities

-- The path goes through the function, and ends in the statement.
enclosing_found :
    (enclosing_function to_division ≡ some function) × (enclosing_statement to_division ≡ returns)
unfolding enclosing_function enclosing_statement is_function is_statement to_division
enclosing_found = (refl, refl)

owning_statement_line-enclosing_example :
    owning_statement_line (build_parent_map tree) division
    ≡ or_else (place (enclosing_statement to_division)).lineno (line_of division)
owning_statement_line-enclosing_example =
    owning_statement_line-enclosing tree division to_division tree_identities

literal_zero_division_findings_lines_example :
    Distinct
      (lines_of (literal_zero_division_findings (build_parent_map tree) tree [] (splitlines code)))
    × ((k : ℕ)
        → In k (
            lines_of
              (literal_zero_division_findings (build_parent_map tree) tree [] (splitlines code)))
          ↔ ((n : Node) × In n (walk tree)
              × DividesByZero (build_parent_map tree) tree (splitlines code) k n))
literal_zero_division_findings_lines_example =
    literal_zero_division_findings_lines (build_parent_map tree) tree [] (splitlines code)

enclosing_function_at_innermost_example :
    ((f : Node)
      → enclosing_function_at tree 2 ≡ some f
      → In f (walk tree)
        × (spans 2 f ≡ true)
        × ((g : Node) → In g (walk tree) → spans 2 g ≡ true → line_of g ≤ line_of f))
    × ((g : Node) → In g (walk tree) → spans 2 g ≡ true → enclosing_function_at tree 2 ≢ none)
enclosing_function_at_innermost_example = enclosing_function_at_innermost tree 2

-- `import os, sys` at line 1, and `import re` at line 9, which the file has not.
abbrev deletion : Edit
deletion = record {
  content = [];
  start_row = some 1;
  start_column = some 1;
  end_row = some 2;
  end_column = some 1;
}

abbrev unused : ℕ → Text → List Edit → Diagnostic
unused row message edits = record {
  code = codes "F401";
  row = some row;
  message = message;
  edits = edits;
}

abbrev diagnostics : List Diagnostic
diagnostics =
    unused 1 (codes "`os` imported") (deletion ∷ [])
    ∷ unused 1 (codes "`sys` imported") (deletion ∷ [])
    ∷ unused 2 (codes "`re` imported") []
    ∷ unused 9 (codes "`io` imported") []
    ∷ []

sorted_diagnostics :
    sort_diagnostics 2 ([], []) diagnostics
    ≡ (((1, 1), codes "os" ∷ codes "sys" ∷ []) ∷ [], (2, codes "re") ∷ [])
unfolding sort_diagnostics
sorted_diagnostics = refl

sort_diagnostics_total_example :
    let sorted = sort_diagnostics 2 ([], []) diagnostics in
    Unrepeated (spans_of sorted.0)
    × ((s : ℕ × ℕ) (t : Text) → listed s t sorted.0 ≡ count (deletes 2 s t) diagnostics)
    × ((row : ℕ) (t : Text) → left_at row t sorted.1 ≡ count (stays 2 row t) diagnostics)
sort_diagnostics_total_example = sort_diagnostics_total 2 diagnostics

abbrev tools : Tools
tools = record {
  parse = parse;
  printer = record { unparse = λ n. []; dump = λ n. [] };
  repr = λ t. t;
  lower_text = λ t. t;
  has_attribute = λ t a. true;
  converts = λ t a. true;
  undefined_names = λ n f. [];
  run_ruff = λ t f. none;
}

-- An interpreter that takes a fix only if it raises.
abbrev strict : Python
strict = record {
  compile = λ t filename. none;
  parses = contains (codes "raise");
  is_wide_word = λ c. true;
}

registered_checkers_trusted_example :
    run_checkers strict code (codes "f.py") (registered_checkers tools)
    ≡ select
        (λ f. is_valid_fix strict f.fix)
        (found_by code (codes "f.py") (registered_checkers tools))
registered_checkers_trusted_example = registered_checkers_trusted tools strict code (codes "f.py")
