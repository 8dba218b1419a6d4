-- ===== src/Syntax/Misaligned.antt =====
-- `_misaligned_indent_fix` of src/core/orchestrator.py.
use githubprojectforissueide.Prelude.{
  ℕ, suc, ◌+◌, ◌-◌, Bool, not, ◌&&◌, ◌||◌, List, [], ◌∷◌, ◌++◌, Option, none, some, any, select,
  take, drop, ltb, leb, ◌==◌, if◌then◌else◌, ◌>>=◌, ◌>>◌, guard,
}
use githubprojectforissueide.Text.{
  Text, codes, splitlines, join_lines, text_eq, is_blank, indent, show,
}
use githubprojectforissueide.Fixes.{sort_by}
use githubprojectforissueide.Syntax.Base.{Python, SyntaxError, line_at, is_zero}
use githubprojectforissueide.Syntax.Lines.{
  looks_like_span_boundary, slice, reindent, largest_span, span_text,
}
use githubprojectforissueide.Syntax.Indent.{BlockFix, or_no_fix, candidates}

-- `e.msg in _MISALIGNED_INDENT_MESSAGES`
unfoldable pub is_misaligned : Text → Bool
unfolding text_eq
is_misaligned msg =
    text_eq msg (codes "unexpected indent")
    || text_eq msg (codes "unindent does not match any outer indentation level")

abbrev pub distance : ℕ → ℕ → ℕ
distance a b = (a - b) + (b - a)

-- Adds a number to a set.
abbrev pub add : ℕ → List ℕ → List ℕ
add n set = if any (λ m. m == n) set then set else n ∷ set

-- The indentations of the lines that are not blank, added to a set.
unfoldable pub add_levels : List Text → List ℕ → List ℕ
unfolding is_blank indent any
add_levels [] set = set
add_levels (line ∷ lines) set =
    add_levels lines (if is_blank line then set else add (indent line) set)

-- `(abs(lvl - first_indent), lvl)`, compared
abbrev pub nearer : ℕ → ℕ → ℕ → Bool
nearer first_indent a b =
    let da = distance a first_indent in
    let db = distance b first_indent in ltb da db || (da == db && leb a b)

-- The levels to try, the nearest first.
unfoldable pub target_levels : List Text → ℕ → List ℕ
unfolding select add_levels sort_by any
target_levels earlier first_indent =
    sort_by (nearer first_indent)
      (select (λ l. not (l == first_indent)) (add_levels earlier (add (first_indent + 4) (0 ∷ []))))

-- The loop that finds `max_end_line`.
unfoldable pub misaligned_end : Python → ℕ → ℕ → ℕ → List Text → ℕ
unfolding is_blank indent looks_like_span_boundary
misaligned_end py first_indent idx max_end [] = max_end
misaligned_end py first_indent idx max_end (candidate ∷ rest) =
    let next = misaligned_end py first_indent (suc idx) (suc idx) rest in
    if not (is_blank candidate)
      && (indent candidate == first_indent && looks_like_span_boundary py candidate)
    then max_end
    else next

-- The new indentation of a line, `none` where it would be negative.
abbrev pub moved : ℕ → ℕ → ℕ → Option ℕ
moved first_indent target n =
    if leb first_indent (n + target) then some (n + target - first_indent) else none

-- One line of the inner loop: a blank line stays, and `none` is the underflow.
unfoldable pub shift_line : ℕ → ℕ → Text → Option Text
unfolding is_blank indent reindent
shift_line first_indent target line =
    if is_blank line
    then some line
    else do n ← moved first_indent target (indent line); some (reindent n line)

unfoldable pub shift_lines : ℕ → ℕ → List Text → Option (List Text)
unfolding shift_line
shift_lines first_indent target [] = some []
shift_lines first_indent target (line ∷ lines) = do
  line' ← shift_line first_indent target line
  lines' ← shift_lines first_indent target lines
  some (line' ∷ lines')

-- The patched lines for a span from `lineno` to `end_line`.
abbrev pub shift_patch : List Text → ℕ → ℕ → ℕ → ℕ → Option (List Text)
shift_patch lines lineno first_indent target end_line = do
  span ← shift_lines first_indent target (slice (lineno - 1) end_line lines)
  some (take (lineno - 1) lines ++ (span ++ drop end_line lines))

unfoldable pub misaligned_reason : ℕ → ℕ → ℕ → ℕ → Text
unfolding show span_text
misaligned_reason lineno first_indent target end_line =
    codes "line "
    ++ (show lineno
        ++ (codes " sits at column "
            ++ (show first_indent
                ++ (codes
                      ", which doesn't match any indentation level already used earlier in the file at that point -- column "
                    ++ (show target
                        ++ (codes " ("
                            ++ (show (distance target first_indent)
                                ++ (codes " space(s) "
                                    ++ ((if ltb first_indent target
                                          then codes "deeper"
                                          else codes "shallower")
                                        ++ (codes ") is the closest level that makes "
                                            ++ (span_text lineno end_line
                                                ++ codes " parse again.")))))))))))

abbrev pub level_result : ℕ → ℕ → ℕ → ℕ × List Text → BlockFix
level_result lineno first_indent target (end_line, patched) = (
  join_lines (slice (lineno - 1) end_line patched),
  end_line,
  misaligned_reason lineno first_indent target end_line,
)

-- The loop over the levels.
unfoldable pub try_levels : Python → List Text → ℕ → ℕ → ℕ → List ℕ → Option BlockFix
unfolding shift_lines largest_span misaligned_reason join_lines
try_levels py lines lineno first_indent max_end [] = none
try_levels py lines lineno first_indent max_end (target ∷ levels) =
    let next = try_levels py lines lineno first_indent max_end levels in
    elim (largest_span py (shift_patch lines lineno first_indent target) lineno
      (suc max_end - lineno)) [
        | none ↦ next
        | some r ↦ some (level_result lineno first_indent target r)
      ]

-- The checks at the start of this function and of the next; `none` is the early return.
unfoldable pub misaligned_line : Text → SyntaxError → Option Text
unfolding is_misaligned splitlines line_at is_blank
misaligned_line code e = do
  guard (not (is_zero e.lineno) && is_misaligned e.msg)
  line ← line_at (splitlines code) e.lineno
  guard (not (is_blank line))
  some line

unfoldable pub misaligned_result : Python → List Text → ℕ → Text → Option BlockFix
unfolding indent target_levels misaligned_end try_levels
misaligned_result py lines lineno first_line =
    let first_indent = indent first_line in
    let max_end = misaligned_end py first_indent lineno lineno (candidates lines lineno) in
    try_levels py lines lineno first_indent max_end
      (target_levels (take (lineno - 1) lines) first_indent)

unfoldable pub misaligned_indent_search : Python → Text → SyntaxError → Option BlockFix
unfolding misaligned_line misaligned_result splitlines
misaligned_indent_search py code e = do
  first_line ← misaligned_line code e
  misaligned_result py (splitlines code) e.lineno first_line

unfoldable pub misaligned_indent_fix : Python → Text → SyntaxError → BlockFix
unfolding misaligned_indent_search
misaligned_indent_fix py code e = or_no_fix (misaligned_indent_search py code e)
