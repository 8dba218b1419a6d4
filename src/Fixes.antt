-- ===== src/Fixes.antt =====
-- `apply_fixes_to_file` of src/cli/review_pr.py: writing the fixes of findings into a file.
mod Spans
pub mod Sorting
pub mod Groups
pub mod Alone
pub mod Order
pub mod Rendering
pub mod Writing
pub mod Partition
pub mod Outcome
pub use Spans.{span_le, start-le-last}
unfoldable pub use Spans.{start_line, last_line, insert_by, sort_by}
use githubprojectforissueide.Prelude.{
  ℕ, zero, suc, ◌+◌, ◌-◌, Bool, true, false, not, ◌&&◌, List, [], ◌∷◌, ◌++◌, select, length, take,
  drop, max, ltb, leb, if◌then◌else◌,
}
use githubprojectforissueide.Text.{Text, codes, splitlines, join_lines, ends_with}
use githubprojectforissueide.Models.{Finding, has_fix}

-- `groups[-1].append(f)`
unfoldable pub append_last : List (List Finding) → Finding → List (List Finding)
append_last [] f = []
append_last (g ∷ []) f = (g ++ f ∷ []) ∷ []
append_last (g ∷ h ∷ groups) f = g ∷ append_last (h ∷ groups) f

abbrev pub is_nonempty {ℓ} : {A : Type ℓ} → List A → Bool
is_nonempty [] = false
is_nonempty (x ∷ xs) = true

-- The loop that collects `groups`, over the findings in order. `group_end` is read only once a
-- group is there, so that its first value, -1 in the source, does not matter.
unfoldable pub group_loop : List (List Finding) → ℕ → List Finding → List (List Finding)
unfolding append_last
group_loop groups group_end [] = groups
group_loop groups group_end (f ∷ rest) =
    let joins = is_nonempty groups && leb (start_line f) group_end in
    group_loop (if joins then append_last groups f else groups ++ (f ∷ []) ∷ [])
      (if joins then max group_end (last_line f) else last_line f) rest

-- The findings that are alone in their group, and those that are not.
unfoldable pub split_groups : List (List Finding) → List Finding × List Finding
split_groups [] = ([], [])
split_groups ((f ∷ []) ∷ groups) =
    let (single, conflicted) = split_groups groups in (f ∷ single, conflicted)
split_groups (group ∷ groups) =
    let (single, conflicted) = split_groups groups in (single, group ++ conflicted)

-- `lines[start - 1 : end] = new`
unfoldable pub splice : ℕ → ℕ → List Text → List Text → List Text
splice start end new lines = take (start - 1) lines ++ (new ++ drop end lines)

pub record ApplyState : Type 0 where
  pub lines : List Text
  pub applied : List Finding
  pub conflicted : List Finding

-- `0 < start <= len(lines) and end <= len(lines)`
unfoldable pub fits : ℕ → Finding → Bool
fits n f = ltb 0 (start_line f) && leb (start_line f) n && leb (last_line f) n

-- One round of the loop that writes the fixes.
unfoldable pub apply_fix : ApplyState → Finding → ApplyState
unfolding fits splice
apply_fix s f =
    if not (fits (length s.lines) f)
    then record s { conflicted = s.conflicted ++ f ∷ [] }
    else record s {
      lines = splice (start_line f) (last_line f) (splitlines f.fix) s.lines;
      applied = s.applied ++ f ∷ [];
    }

unfoldable pub apply_loop : ApplyState → List Finding → ApplyState
unfolding apply_fix
apply_loop s [] = s
apply_loop s (f ∷ rest) = apply_loop (apply_fix s f) rest

pub record Applied : Type 0 where
  pub patched : Text
  pub applied : List Finding
  pub not_applied : List Finding

-- `sorted(single, key=lambda f: _span(f)[0], reverse=True)`
abbrev pub starts_no_earlier : Finding → Finding → Bool
starts_no_earlier f g = leb (start_line g) (start_line f)

unfoldable pub apply_fixes_to_file : Text → List Finding → Applied
unfolding start_line last_line select has_fix splitlines sort_by group_loop split_groups apply_loop
    join_lines ends_with
apply_fixes_to_file code findings =
    let fixable = select has_fix findings in
    let not_fixable = select (λ f. not (has_fix f)) findings in
    let ordered = sort_by span_le fixable in
    let (single, conflicted) = split_groups (group_loop [] 0 ordered) in
    let start : ApplyState = record {
      lines = splitlines code;
      applied = [];
      conflicted = conflicted;
    } in
    let s = apply_loop start (sort_by starts_no_earlier single) in
    let patched = join_lines s.lines in
    record {
      patched = if ends_with (codes "\n") code then patched ++ codes "\n" else patched;
      applied = s.applied;
      not_applied = not_fixable ++ s.conflicted;
    }
