-- ===== src/Examples/Syntax.antt =====
-- Examples for the syntax-error fixes of src/core/orchestrator.py.
use githubprojectforissueide.Prelude.{
  List, ◌+◌, ℕ, ◌≡◌, ◌≢◌, ◌<◌, ◌≤◌, ◌↔◌, refl, true, [], ◌∷◌, none, some, All, length, arith,
  if◌then◌else◌,
}
use githubprojectforissueide.Text.{Text, codes, splitlines, join_lines, contains}
use githubprojectforissueide.Models.{Finding, high, medium}
use githubprojectforissueide.Syntax.{Python, SyntaxError, missing_colon_fix, map_range}
use githubprojectforissueide.Syntax.Collect.{syntax_error_fix, collect_syntax_error_findings}
use githubprojectforissueide.Syntax.Confirmed.{Confirmed}
use githubprojectforissueide.Syntax.Chosen.{
  MissingColon, syntax_error_fix-Confirmed, syntax_error_fix-MissingColon,
}
use githubprojectforissueide.Syntax.Collected.{
  IsSyntaxFinding, collect_syntax_error_findings-nil_iff, collect_syntax_error_findings-Capped,
}
use githubprojectforissueide.Syntax.Repaired.{repaired, collect_syntax_error_findings-repaired}
use githubprojectforissueide.Syntax.Lines.{indent_line, largest_span}
use githubprojectforissueide.Syntax.Indent.{missing_indent_fix, indent_patch}

-- An interpreter that accepts what contains a text, and else raises one error.
abbrev accepting : Text → SyntaxError → Python
accepting t e = record {
  compile = λ code filename. if contains t code then none else some e;
  parses = contains t;
  is_wide_word = λ c. true;
}

abbrev unindented : Text
unindented = codes "def f():\nreturn 1\n"

abbrev expects_block : SyntaxError
expects_block = record {
  msg = codes "expected an indented block after function definition on line 1";
  lineno = 2;
}

abbrev block_python : Python
block_python = accepting (codes "\n    return") expects_block

fixed_block : (syntax_error_fix block_python unindented expects_block).fix ≡ codes "    return 1"
unfolding syntax_error_fix contains missing_colon_fix missing_indent_fix map_range indent_line
fixed_block = refl

block_is_medium : (syntax_error_fix block_python unindented expects_block).confidence ≡ medium
unfolding syntax_error_fix contains missing_colon_fix missing_indent_fix map_range indent_line
block_is_medium = refl

ne_nil : {c : ℕ} {t u : Text} → t ≡ c ∷ u → t ≢ []
ne_nil h k = cc

block_is_fixed : (syntax_error_fix block_python unindented expects_block).fix ≢ []
block_is_fixed = ne_nil fixed_block

syntax_error_fix-Confirmed_example :
    let f = syntax_error_fix block_python unindented expects_block in
    Confirmed block_python (splitlines unindented) f.start_line f.end_line f.fix
syntax_error_fix-Confirmed_example =
    syntax_error_fix-Confirmed block_python unindented expects_block block_is_medium block_is_fixed

abbrev no_colon : Text
no_colon = codes "def f()\n    return 1\n"

abbrev expects_colon : SyntaxError
expects_colon = record { msg = codes "expected ':'"; lineno = 1 }

abbrev colon_python : Python
colon_python = accepting (codes "f():\n") expects_colon

colon_is_high : (syntax_error_fix colon_python no_colon expects_colon).confidence ≡ high
unfolding syntax_error_fix contains missing_colon_fix missing_indent_fix map_range indent_line
colon_is_high = refl

syntax_error_fix-MissingColon_example :
    let f = syntax_error_fix colon_python no_colon expects_colon in
    (f.fix ≢ []) × (f.start_line ≡ 1) × (f.end_line ≡ 0) × MissingColon no_colon expects_colon f.fix
syntax_error_fix-MissingColon_example =
    syntax_error_fix-MissingColon colon_python no_colon expects_colon colon_is_high

abbrev name : Text
name = codes "f.py"

collect_syntax_error_findings-nil_iff_example :
    (collect_syntax_error_findings colon_python no_colon name ≡ [])
    ↔ (colon_python.compile (join_lines (splitlines no_colon)) name ≡ none)
collect_syntax_error_findings-nil_iff_example =
    collect_syntax_error_findings-nil_iff colon_python no_colon name

collect_syntax_error_findings-Capped_example :
    let fs = collect_syntax_error_findings colon_python no_colon name in
    (length fs ≤ 25) × All (IsSyntaxFinding name) fs
collect_syntax_error_findings-Capped_example =
    collect_syntax_error_findings-Capped colon_python no_colon name

collected_is_high :
    All
      (λ (f : Finding). f.confidence ≡ high)
      (collect_syntax_error_findings colon_python no_colon name)
unfolding collect_syntax_error_findings contains missing_colon_fix
collected_is_high = (refl, tt)

collected_is_short : length (collect_syntax_error_findings colon_python no_colon name) < 25
unfolding collect_syntax_error_findings contains missing_colon_fix
collected_is_short = omega arith

collect_syntax_error_findings-repaired_example :
    colon_python.compile
      (join_lines
        (repaired (splitlines no_colon) (collect_syntax_error_findings colon_python no_colon name)))
      name
    ≡ none
collect_syntax_error_findings-repaired_example =
    collect_syntax_error_findings-repaired colon_python no_colon name collected_is_high
      collected_is_short

-- Of the two spans only the smaller leaves the last statement where the interpreter wants it.
abbrev trailing : List Text
trailing = splitlines (codes "def f():\nreturn 1\nx = 2\n")

abbrev trailing_python : Python
trailing_python = accepting (codes "    return 1\nx") expects_block

abbrev one_line : List Text
one_line = codes "def f():" ∷ codes "    return 1" ∷ codes "x = 2" ∷ []

abbrev two_lines : List Text
two_lines = codes "def f():" ∷ codes "    return 1" ∷ codes "    x = 2" ∷ []

smaller_found : largest_span trailing_python (indent_patch trailing 2 4) 2 2 ≡ some (2, one_line)
unfolding largest_span map_range indent_line contains splitlines join_lines
smaller_found = refl

larger_tried : indent_patch trailing 2 4 (2 + 1) ≡ some two_lines
unfolding map_range indent_line splitlines
larger_tried = refl
