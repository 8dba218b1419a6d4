-- ===== src/Syntax/Indent.antt =====
-- `_missing_indent_fix` of src/core/orchestrator.py.
use githubprojectforissueide.Prelude.{
  ℕ, suc, ◌+◌, ◌-◌, min, not, ◌&&◌, List, [], ◌∷◌, ◌++◌, Option, none, some, length, ltb, ◌==◌,
  if◌then◌else◌, ◌>>=◌, ◌>>◌, guard,
}
use githubprojectforissueide.Text.{
  Text, codes, splitlines, join_lines, contains, is_blank, indent, strip, show,
}
use githubprojectforissueide.Syntax.Base.{Python, SyntaxError, line_at, is_zero}
use githubprojectforissueide.Syntax.Lines.{
  header_line_number, looks_like_span_boundary, slice, map_range, indent_line, largest_span,
  span_text,
}

-- `_INDENT_SEARCH_WINDOW`
abbrev pub search_window : ℕ
search_window = 50

-- The lines that a span may take in behind line `lineno`.
abbrev pub candidates : List Text → ℕ → List Text
candidates lines lineno = slice lineno (min (length lines) (lineno + search_window)) lines

-- What each of the fixes returns: the fix, its last line, and the reason. An empty fix is none.
abbrev pub BlockFix : Type 0
BlockFix = Text × ℕ × Text

abbrev pub no_fix : BlockFix
no_fix = ([], 0, [])

abbrev pub or_no_fix : Option BlockFix → BlockFix
or_no_fix none = no_fix
or_no_fix (some r) = r

-- The loop that finds `max_end_line`; `idx` is its counter.
unfoldable pub indent_end : Python → ℕ → ℕ → ℕ → ℕ → List Text → ℕ
unfolding is_blank indent looks_like_span_boundary
indent_end py header_indent first_indent idx max_end [] = max_end
indent_end py header_indent first_indent idx max_end (candidate ∷ rest) =
    let next = indent_end py header_indent first_indent (suc idx) (suc idx) rest in
    if is_blank candidate
    then next
    else if ltb (indent candidate) header_indent
    then max_end
    else if indent candidate == first_indent && looks_like_span_boundary py candidate
    then max_end
    else next

unfoldable pub missing_indent_reason : Text → ℕ → ℕ → ℕ → ℕ → ℕ → ℕ → Text
unfolding strip show span_text
missing_indent_reason header_line header_lineno header_indent lineno first_indent offset end_line =
    codes "'"
    ++ (strip header_line
        ++ (codes "' on line "
            ++ (show header_lineno
                ++ (codes " needs its body indented one level deeper (column "
                    ++ (show (header_indent + 4)
                        ++ (codes "), but line "
                            ++ (show lineno
                                ++ (codes " sits at column "
                                    ++ (show first_indent
                                        ++ (codes " -- shifting "
                                            ++ (span_text lineno end_line
                                                ++ (codes " right by "
                                                    ++ (show offset
                                                        ++ codes
                                                            " space(s) is the largest change the parser confirms actually fixes the file, without pulling in a later sibling definition.")))))))))))))

-- The patched lines for a span that ends at `end_line`.
abbrev pub indent_patch : List Text → ℕ → ℕ → ℕ → Option (List Text)
indent_patch lines lineno offset end_line =
    some (map_range (lineno - 1) end_line (indent_line offset) lines)

-- What the checks at the start of the function find.
pub record IndentHeader : Type 0 where
  pub first_line : Text
  pub header_lineno : ℕ
  pub header_line : Text

-- Those checks; `none` is the early return.
unfoldable pub indent_header : Text → SyntaxError → Option IndentHeader
unfolding contains header_line_number splitlines line_at is_blank indent
indent_header code e = do
  guard (not (is_zero e.lineno) && contains (codes "expected an indented block") e.msg)
  header_lineno ← header_line_number e.msg
  first_line ← line_at (splitlines code) e.lineno
  header_line ← line_at (splitlines code) header_lineno
  guard (not (is_blank first_line) && ltb (indent first_line) (indent header_line + 4))
  some
      (record { first_line = first_line; header_lineno = header_lineno; header_line = header_line })

-- `(header_indent + 4) - first_indent`
abbrev pub indent_offset : IndentHeader → ℕ
indent_offset h = indent h.header_line + 4 - indent h.first_line

-- The largest span that the interpreter accepts.
unfoldable pub indent_span : Python → List Text → ℕ → IndentHeader → Option (ℕ × List Text)
unfolding indent indent_end largest_span
indent_span py lines lineno h =
    let max_end =
      indent_end py (indent h.header_line) (indent h.first_line) lineno lineno
        (candidates lines lineno) in
    largest_span py (indent_patch lines lineno (indent_offset h)) lineno (suc max_end - lineno)

abbrev pub indent_result : ℕ → IndentHeader → ℕ × List Text → BlockFix
indent_result lineno h (end_line, patched) = (
  join_lines (slice (lineno - 1) end_line patched),
  end_line,
  missing_indent_reason h.header_line h.header_lineno (indent h.header_line) lineno
      (indent h.first_line) (indent_offset h) end_line,
)

unfoldable pub missing_indent_search : Python → Text → SyntaxError → Option BlockFix
unfolding indent_header indent_span missing_indent_reason join_lines splitlines
missing_indent_search py code e = do
  h ← indent_header code e
  r ← indent_span py (splitlines code) e.lineno h
  some (indent_result e.lineno h r)

unfoldable pub missing_indent_fix : Python → Text → SyntaxError → BlockFix
unfolding missing_indent_search
missing_indent_fix py code e = or_no_fix (missing_indent_search py code e)
