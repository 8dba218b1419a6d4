-- ===== src/Syntax/Collect.antt =====
-- `_syntax_error_fix` and `_collect_syntax_error_findings` of src/core/orchestrator.py.
use githubprojectforissueide.Prelude.{
  ℕ, zero, suc, ◌-◌, false, not, ◌||◌, List, [], ◌∷◌, ◌++◌, Option, none, some, set, if◌then◌else◌,
}
use githubprojectforissueide.Text.{Text, codes, splitlines, join_lines, is_empty, strip}
use githubprojectforissueide.Models.{Finding, ConfidenceTier, high, medium, critical, is_high}
use githubprojectforissueide.Syntax.Base.{Python, SyntaxError, line_at, is_zero, missing_colon_fix}
use githubprojectforissueide.Syntax.Indent.{BlockFix, missing_indent_fix}
use githubprojectforissueide.Syntax.Misaligned.{misaligned_indent_fix}
use githubprojectforissueide.Syntax.Backward.{RangeFix, misaligned_indent_backward_fix}

-- `a or b`, on numbers
abbrev pub or_else : ℕ → ℕ → ℕ
or_else a b = if is_zero a then b else a

-- The tuple that `_syntax_error_fix` returns.
pub record SyntaxFix : Type 0 where
  pub fix : Text
  pub start_line : ℕ
  pub end_line : ℕ
  pub confidence : ConfidenceTier
  pub reason : Text

-- The first of the four results that is a fix, in the order in which they are tried.
unfoldable pub choose_fix : ℕ → Text → BlockFix → BlockFix → RangeFix → SyntaxFix
unfolding is_empty
choose_fix lineno colon indent misaligned backward =
    if not (is_empty colon)
    then record { fix = colon; start_line = lineno; end_line = 0; confidence = high; reason = [] }
    else if not (is_empty indent.0)
    then record {
      fix = indent.0;
      start_line = lineno;
      end_line = indent.1;
      confidence = medium;
      reason = indent.2;
    }
    else if not (is_empty misaligned.0)
    then record {
      fix = misaligned.0;
      start_line = lineno;
      end_line = misaligned.1;
      confidence = medium;
      reason = misaligned.2;
    }
    else if not (is_empty backward.0)
    then record {
      fix = backward.0;
      start_line = backward.1;
      end_line = backward.2;
      confidence = medium;
      reason = backward.3;
    }
    else record { fix = []; start_line = lineno; end_line = 0; confidence = medium; reason = [] }

unfoldable pub syntax_error_fix : Python → Text → SyntaxError → SyntaxFix
unfolding choose_fix
syntax_error_fix py code e =
    choose_fix e.lineno (missing_colon_fix code e) (missing_indent_fix py code e)
      (misaligned_indent_fix py code e) (misaligned_indent_backward_fix py code e)

-- `_MAX_SYNTAX_ERRORS_PER_REVIEW`
abbrev pub max_syntax_errors : ℕ
max_syntax_errors = 25

abbrev pub stripped_or_nothing : Option Text → Text
stripped_or_nothing none = []
stripped_or_nothing (some line) = strip line

unfoldable pub syntax_finding : List Text → Text → SyntaxError → SyntaxFix → Finding
unfolding line_at strip is_empty
syntax_finding working_lines filename e f = record {
  file = filename;
  line = or_else f.start_line (or_else e.lineno 1);
  end_line = f.end_line;
  category = codes "syntax";
  severity = critical;
  message =
      codes "File does not parse as valid Python: "
      ++ (e.msg ++ (if is_empty f.reason then [] else codes " (" ++ (f.reason ++ codes ")")));
  bad_code = stripped_or_nothing (line_at working_lines e.lineno);
  fix = f.fix;
  fix_is_deletion = false;
  confidence = f.confidence;
  source = codes "orchestrator";
}

-- What the round does with the error, if the interpreter raises one; nothing, if it does not.
abbrev pub on_error : Option SyntaxError → (SyntaxError → List Finding) → List Finding
on_error none k = []
on_error (some e) k = k e

-- The loop, with the rounds that are left. The write into `working_lines` is in range: only the
-- colon fix goes on, and it is empty where the line is not there.
unfoldable pub collect_loop : Python → Text → ℕ → List Text → List Finding
unfolding syntax_error_fix syntax_finding join_lines is_empty
collect_loop py filename zero working_lines = []
collect_loop py filename (suc rounds) working_lines =
    on_error (py.compile (join_lines working_lines) filename) (λ e.
      let f = syntax_error_fix py (join_lines working_lines) e in
      let rest = collect_loop py filename rounds (set working_lines (e.lineno - 1) f.fix) in
      syntax_finding working_lines filename e f
      ∷ (if not (is_high f.confidence) || (is_empty f.fix || is_zero e.lineno) then [] else rest))

unfoldable pub collect_syntax_error_findings : Python → Text → Text → List Finding
unfolding collect_loop splitlines
collect_syntax_error_findings py code filename =
    collect_loop py filename max_syntax_errors (splitlines code)
