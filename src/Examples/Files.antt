-- ===== src/Examples/Files.antt =====
-- Examples for `apply_fixes_to_file` of src/cli/review_pr.py.
use githubprojectforissueide.Prelude.{◌≡◌, refl, true, List, [], ◌∷◌, ◌++◌, select, if◌then◌else◌}
use githubprojectforissueide.Text.{Text, codes, splitlines, join_lines, ends_with}
use githubprojectforissueide.Models.{Finding, finding, critical}
use githubprojectforissueide.Fixes.{apply_fixes_to_file}
use githubprojectforissueide.Fixes.Sorting.{SameItems}
use githubprojectforissueide.Fixes.Order.{Separated}
use githubprojectforissueide.Fixes.Rendering.{render}
use githubprojectforissueide.Fixes.Outcome.{
  applicable, applied-applicable, applied-partition, patched-render,
}

abbrev file : Text
file = codes "a\nb\nc\nd\n"

abbrev at_line : Finding
at_line = finding (codes "f.py") 1 (codes "runtime") critical (codes "first")

abbrev first : Finding
first = record at_line { fix = codes "x\ny" }

abbrev range : Finding
range = record at_line { line = 3; end_line = 4; fix_is_deletion = true }

abbrev inside : Finding
inside = record at_line { line = 4; fix = codes "z" }

-- Two fixes that share no line are both written, the later first.
both_written : (apply_fixes_to_file file (first ∷ range ∷ [])).patched ≡ codes "x\ny\nb\n"
unfolding apply_fixes_to_file
both_written = refl

-- Two that do are both left out.
conflict_left : (apply_fixes_to_file file (first ∷ inside ∷ range ∷ [])).applied ≡ first ∷ []
unfolding apply_fixes_to_file
conflict_left = refl

abbrev three : List Finding
three = range ∷ first ∷ at_line ∷ []

applied-applicable_example :
    SameItems (apply_fixes_to_file file three).applied (select (applicable file three) three)
    × Separated (apply_fixes_to_file file three).applied
applied-applicable_example = applied-applicable file three

applied-partition_example :
    let r = apply_fixes_to_file file three in SameItems (r.applied ++ r.not_applied) three
applied-partition_example = applied-partition file three

patched-render_example :
    let r = apply_fixes_to_file file three in
    let lines = join_lines (render r.applied 1 (splitlines file)) in
    r.patched ≡ (if ends_with (codes "\n") file then lines ++ codes "\n" else lines)
patched-render_example = patched-render file three
