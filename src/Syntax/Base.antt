-- ===== src/Syntax/Base.antt =====
-- What the fixes read of Python itself, and `_missing_colon_fix` of src/core/orchestrator.py.
use githubprojectforissueide.Prelude.{
  ℕ, zero, suc, Bool, not, ◌||◌, List, [], ◌++◌, Option, none, some, get_elem?, ◌==◌, if◌then◌else◌,
}
use githubprojectforissueide.Text.{Text, codes, splitlines, text_eq, contains, rstrip, ends_with}

-- A SyntaxError. `lineno` is 0 also where Python has None: the source only tests its truth.
pub record SyntaxError : Type 0 where
  pub msg : Text
  pub lineno : ℕ

-- The interpreter that runs the program: `compile(code, filename, "exec")`, with the error that it
-- raises, if any; whether `ast.parse` accepts a text; and which characters beyond ASCII `\w` takes.
pub record Python : Type 0 where
  pub compile : Text → Text → Option SyntaxError
  pub parses : Text → Bool
  pub is_wide_word : ℕ → Bool

abbrev pub is_zero : ℕ → Bool
is_zero n = n == 0

-- `lines[n - 1]` under the guard `0 < n <= len(lines)`
unfoldable pub line_at : List Text → ℕ → Option Text
line_at lines zero = none
line_at lines (suc n) = get_elem? lines n

-- The line with a colon, where it is there, has no comment and does not end in one already.
unfoldable pub with_colon : Option Text → Text
unfolding contains rstrip ends_with
with_colon none = []
with_colon (some line) =
    if contains (codes "#") line || ends_with (codes ":") (rstrip line)
    then []
    else rstrip line ++ codes ":"

unfoldable pub missing_colon_fix : Text → SyntaxError → Text
unfolding splitlines text_eq with_colon line_at
missing_colon_fix code e =
    if not (text_eq e.msg (codes "expected ':'")) || is_zero e.lineno
    then []
    else with_colon (line_at (splitlines code) e.lineno)
