-- ===== src/Syntax/Backward.antt =====
-- `_misaligned_indent_backward_fix` of src/core/orchestrator.py.
use githubprojectforissueide.Prelude.{
  ℕ, zero, suc, ◌+◌, ◌-◌, Bool, true, false, not, ◌||◌, List, [], ◌∷◌, ◌++◌, Option, none, some,
  get_elem?, take, drop, ltb, ◌==◌, if◌then◌else◌, ◌>>=◌,
}
use githubprojectforissueide.Text.{Text, codes, splitlines, join_lines, is_blank, indent, show}
use githubprojectforissueide.Syntax.Base.{Python, SyntaxError}
use githubprojectforissueide.Syntax.Lines.{slice, reindent, span_text}
use githubprojectforissueide.Syntax.Misaligned.{misaligned_line, moved, distance}

-- The fix, its first and its last line, and the reason.
abbrev pub RangeFix : Type 0
RangeFix = Text × ℕ × ℕ × Text

-- The loop that skips blank lines upwards, from index `k - 1`; `none` where it leaves the file.
unfoldable pub last_nonblank : List Text → ℕ → Option ℕ
unfolding is_blank
last_nonblank lines zero = none
last_nonblank lines (suc k) =
    let above = last_nonblank lines k in
    elim (get_elem? lines k) [ none ↦ none | some line ↦ if is_blank line then above else some k ]

-- The loop that finds `begin_idx`, from the index it has.
unfoldable pub block_begin : List Text → ℕ → ℕ → ℕ
unfolding is_blank indent
block_begin lines block_indent zero = zero
block_begin lines block_indent (suc k) =
    let above = block_begin lines block_indent k in
    elim (get_elem? lines k) [
      | none ↦ suc k
      | some prev ↦ if is_blank prev || not (indent prev == block_indent) then suc k else above
    ]

-- The loop that shifts the block; `none` is a negative indentation.
unfoldable pub shift_block : ℕ → ℕ → List Text → Option (List Text)
unfolding indent reindent
shift_block block_indent target [] = some []
shift_block block_indent target (line ∷ lines) = do
  n ← moved block_indent target (indent line)
  lines' ← shift_block block_indent target lines
  some (reindent n line ∷ lines')

unfoldable pub backward_reason : ℕ → ℕ → ℕ → ℕ → ℕ → Text
unfolding show span_text
backward_reason lineno first last block_indent first_indent =
    let span = span_text first last in
    codes "line "
    ++ (show lineno
        ++ (codes " itself is fine -- "
            ++ (span
                ++ (codes " right above it sits at column "
                    ++ (show block_indent
                        ++ (codes ", "
                            ++ (show (distance first_indent block_indent)
                                ++ (codes " space(s) deeper than line "
                                    ++ (show lineno
                                        ++ (codes "'s column "
                                            ++ (show first_indent
                                                ++ (codes
                                                      "; that's what actually makes the dedent invalid, so reindenting "
                                                    ++ (span
                                                        ++ (codes " to column "
                                                            ++ (show first_indent
                                                            ++ (codes " (matching line "
                                                            ++ (show lineno
                                                            ++ codes
                                                            ") is what makes the file parse again.")))))))))))))))))

-- `compile` raised nothing.
abbrev pub compiles : Python → List Text → Bool
compiles py lines = elim (py.compile (join_lines lines) (codes "<string>")) [
  | none ↦ true
  | some _ ↦ false
]

-- The last line above the error that is not blank: its index and its text.
unfoldable pub line_above : List Text → ℕ → Option (ℕ × Text)
unfolding last_nonblank
line_above lines lineno = do
  start_idx ← last_nonblank lines (lineno - 1)
  line ← get_elem? lines start_idx
  some (start_idx, line)

-- The block from index `begin_idx` to `start_idx`, moved from one indentation to another.
abbrev pub block_patch : List Text → ℕ → ℕ → ℕ → ℕ → Option (List Text)
block_patch lines block_indent first_indent begin_idx start_idx = do
  span ← shift_block block_indent first_indent (slice begin_idx (suc start_idx) lines)
  some (take begin_idx lines ++ (span ++ drop (suc start_idx) lines))

abbrev pub block_result : ℕ → ℕ → ℕ → ℕ → ℕ → List Text → RangeFix
block_result lineno block_indent first_indent begin_idx start_idx patched = (
  join_lines (slice begin_idx (suc start_idx) patched),
  begin_idx + 1,
  start_idx + 1,
  backward_reason lineno (begin_idx + 1) (start_idx + 1) block_indent first_indent,
)

-- The result for the patched lines, if there are some and the interpreter accepts them.
unfoldable pub if_compiles : Python → Option (List Text) → (List Text → RangeFix) → Option RangeFix
if_compiles py none result = none
if_compiles py (some patched) result = if compiles py patched then some (result patched) else none

unfoldable pub backward_result : Python → List Text → ℕ → ℕ → ℕ × Text → Option RangeFix
unfolding indent if_compiles block_begin shift_block join_lines backward_reason
backward_result py lines lineno first_indent (start_idx, start) =
    let block_indent = indent start in
    let begin_idx = block_begin lines block_indent start_idx in
    if ltb first_indent block_indent
    then if_compiles py (block_patch lines block_indent first_indent begin_idx start_idx)
        (block_result lineno block_indent first_indent begin_idx start_idx)
    else none

unfoldable pub backward_search : Python → Text → SyntaxError → Option RangeFix
unfolding misaligned_line line_above backward_result indent splitlines
backward_search py code e = do
  error_line ← misaligned_line code e
  above ← line_above (splitlines code) e.lineno
  backward_result py (splitlines code) e.lineno (indent error_line) above

-- The fix that the search found, or the empty one.
abbrev pub or_no_range : Option RangeFix → RangeFix
or_no_range none = ([], 0, 0, [])
or_no_range (some r) = r

unfoldable pub misaligned_indent_backward_fix : Python → Text → SyntaxError → RangeFix
unfolding backward_search
misaligned_indent_backward_fix py code e = or_no_range (backward_search py code e)
