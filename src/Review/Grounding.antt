-- ===== src/Review/Grounding.antt =====
-- src/core/grounding.py: which findings are trusted.
use githubprojectforissueide.Prelude.{
  ◌+◌, ◌-◌, Bool, true, false, ◌&&◌, ◌||◌, List, [], ◌∷◌, ◌++◌, any, min, length, ltb, ◌==◌,
  if◌then◌else◌,
}
use githubprojectforissueide.Text.{Text, codes, splitlines, is_blank, contains, is_empty}
use githubprojectforissueide.Text.Words.{normalized}
use githubprojectforissueide.Models.{Finding}
use githubprojectforissueide.Syntax.{Python, slice}

unfoldable pub is_grounded : Finding → Text → Bool
unfolding normalized splitlines contains is_empty any
is_grounded f source_text =
    let target = normalized f.bad_code in
    let lines = splitlines source_text in
    if is_empty target
    then true
    else if ltb f.line 1
    then false
    else any (λ candidate. contains target (normalized candidate))
        (slice (f.line - 1 - 2) (min (length lines) (f.line - 1 + 2 + 1)) lines)

-- `first_line[:1] in (" ", "\t")`, for the first of some lines
unfoldable pub looks_indented : List Text → Bool
looks_indented [] = false
looks_indented ([] ∷ ls) = false
looks_indented ((c ∷ s) ∷ ls) = c == b' ' || c == b'\t'

unfoldable pub is_valid_fix : Python → Text → Bool
unfolding is_blank splitlines looks_indented
is_valid_fix py fix =
    if is_blank fix
    then true
    else py.parses (if looks_indented (splitlines fix) then codes "if True:\n" ++ fix else fix)

unfoldable pub is_trustworthy : Python → Finding → Text → Bool
unfolding is_grounded is_valid_fix
is_trustworthy py f source_text = is_grounded f source_text && is_valid_fix py f.fix
