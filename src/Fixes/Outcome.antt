-- ===== src/Fixes/Outcome.antt =====
-- What `apply_fixes_to_file` of src/cli/review_pr.py applies, keeps back and writes.
use githubprojectforissueide.Prelude.{
  ◌+◌, ◌≡◌, refl, sym, ap, subst, ◌∙◌, Bool, not, ◌&&◌, List, [], ◌∷◌, ◌++◌, arith, length, select,
  count, All-of, Bool-cases, inl, inr, if◌then◌else◌, ◌<◌,
}
use githubprojectforissueide.Text.{Text, codes, splitlines, join_lines, ends_with}
use githubprojectforissueide.Models.{Finding, has_fix}
use githubprojectforissueide.Fixes.Spans.{start_line, last_line, sort_by, span_le}
use githubprojectforissueide.Fixes.{
  ApplyState, fits, group_loop, split_groups, starts_no_earlier, apply_loop, apply_fixes_to_file,
}
use githubprojectforissueide.Fixes.Sorting.{
  SameItems, count-append, count-select, count-select-add, count-sort_by, count_congr, All-select,
}
use githubprojectforissueide.Fixes.Alone.{alone}
use githubprojectforissueide.Fixes.Order.{Separated, writes, groups-writes, writes-Separated}
use githubprojectforissueide.Fixes.Rendering.{render, render-nil}
use githubprojectforissueide.Fixes.Writing.{Written, apply_loop-Written}
use githubprojectforissueide.Fixes.Partition.{count-groups}

-- A finding whose fix may be written: it has one, its range lies in the file, and no other fix
-- has a line of the range.
abbrev pub applicable : Text → List Finding → Finding → Bool
applicable code findings f =
    has_fix f && (alone (select has_fix findings) f && fits (length (splitlines code)) f)

module _ (code : Text) (findings : List Finding) where
  abbrev fixable : List Finding
  fixable = select has_fix findings

  abbrev in_conflict : List Finding
  in_conflict = (split_groups (group_loop [] 0 (sort_by span_le fixable))).1

  abbrev begin : ApplyState
  begin = record { lines = splitlines code; applied = []; conflicted = in_conflict }

  abbrev finish : ApplyState
  finish = apply_loop begin (writes fixable)

  loop_finish :
      apply_loop begin
        (sort_by starts_no_earlier (split_groups (group_loop [] 0 (sort_by span_le fixable))).0)
      ≡ finish
  loop_finish = ap (apply_loop begin) (groups-writes fixable)

  applied_finish : (apply_fixes_to_file code findings).applied ≡ finish.applied
  unfolding apply_fixes_to_file
  applied_finish = ap (λ (s : ApplyState). s.applied) loop_finish

  not_applied_finish :
      (apply_fixes_to_file code findings).not_applied
      ≡ select (λ f. not (has_fix f)) findings ++ finish.conflicted
  unfolding apply_fixes_to_file
  not_applied_finish =
      ap (λ (s : ApplyState). select (λ f. not (has_fix f)) findings ++ s.conflicted) loop_finish

  patched_finish : (apply_fixes_to_file code findings).patched ≡ (
      if ends_with (codes "\n") code
      then join_lines finish.lines ++ codes "\n"
      else join_lines finish.lines)
  unfolding apply_fixes_to_file
  patched_finish =
      ap
        (λ (s : ApplyState).
          if ends_with (codes "\n") code
          then join_lines s.lines ++ codes "\n"
          else join_lines s.lines)
        loop_finish

  finish-Written : Written (splitlines code) (writes fixable) begin finish
  finish-Written =
      apply_loop-Written (splitlines code) (writes fixable) begin (writes-Separated fixable)
        (sym (render-nil 1 (splitlines code))) (All-of _ (writes fixable) (λ f. tt))
        (All-of _ (writes fixable) (λ f. refl))

  same_test :
      (q : Finding → Bool) (f : Finding)
      → (has_fix f && (alone fixable f && (fits (length (splitlines code)) f && q f)))
        ≡ (applicable code findings f && q f)
  same_test q f =
      and_regroup (has_fix f) (alone fixable f) (fits (length (splitlines code)) f) (q f)
    where
      and_regroup : (a b c d : Bool) → (a && (b && (c && d))) ≡ ((a && (b && c)) && d)
      and_regroup a b c d = ground arith

  count_applied :
      (q : Finding → Bool)
      → count q (select (fits (length (splitlines code))) (writes fixable))
        ≡ count q (select (applicable code findings) findings)
  count_applied q =
      let fit = fits (length (splitlines code)) in
      let ordered = sort_by span_le fixable in
      count-select q fit (writes fixable)
      ∙ (count-sort_by (λ f. fit f && q f) starts_no_earlier (select (alone fixable) ordered)
          ∙ (count-select (λ f. fit f && q f) (alone fixable) ordered
              ∙ (count-sort_by (λ f. alone fixable f && (fit f && q f)) span_le fixable
                  ∙ (count-select (λ f. alone fixable f && (fit f && q f)) has_fix findings
                      ∙ (count_congr (λ f. has_fix f && (alone fixable f && (fit f && q f)))
                            (λ f. applicable code findings f && q f) findings
                            (All-of _ findings (same_test q))
                          ∙ sym (count-select q (applicable code findings) findings))))))

  count_finished :
      (q : Finding → Bool)
      → count q finish.applied
          + (count q (select (λ f. not (has_fix f)) findings) + count q finish.conflicted)
        ≡ count q findings
  count_finished q =
      let fit = fits (length (splitlines code)) in
      let ordered = sort_by span_le fixable in
      let single = (split_groups (group_loop [] 0 ordered)).0 in
      omega (
        arith,
        ap (count q) finish-Written.applied,
        ap (count q) finish-Written.conflicted,
        count-append q in_conflict (select (λ f. not (fit f)) (writes fixable)),
        count-select-add q fit (writes fixable),
        ap (count q) (groups-writes fixable),
        count-sort_by q starts_no_earlier single,
        count-groups q ordered,
        count-sort_by q span_le fixable,
        count-select-add q has_fix findings,
      )

Separated-select : (p : Finding → Bool) (fs : List Finding) → Separated fs → Separated (select p fs)
unfolding select
Separated-select p [] h = tt
Separated-select p (f ∷ fs) h = elim (Bool-cases (p f)) [
  | inl keep ↦
      rw keep (All-select (λ y. last_line y < start_line f) p fs h.0, Separated-select p fs h.1)
  | inr drop ↦ rw drop (Separated-select p fs h.1)
]

-- The findings that are applied are, up to their order and each as often, exactly those that have a
-- fix, whose line range lies in the file, and whose range shares no line with that of another
-- finding that has a fix. They are applied from the bottom of the file up, each ending above the
-- start of all that were applied before it.
pub applied-applicable :
    (code : Text) (findings : List Finding)
    → SameItems
        (apply_fixes_to_file code findings).applied
        (select (applicable code findings) findings)
      × Separated (apply_fixes_to_file code findings).applied
applied-applicable code findings =
    let e = applied_finish code findings ∙ (finish-Written code findings).applied in
    (
      λ q. ap (count q) e ∙ count_applied code findings q,
      subst Separated (sym e) (Separated-select _ _ (writes-Separated (select has_fix findings))),
    )

-- Every finding is returned exactly once, as applied or as not applied: none is lost, none is made.
pub applied-partition :
    (code : Text) (findings : List Finding)
    → let r = apply_fixes_to_file code findings in SameItems (r.applied ++ r.not_applied) findings
applied-partition code findings q =
    let r = apply_fixes_to_file code findings in
    let s = finish code findings in
    omega (
      arith,
      count-append q r.applied r.not_applied,
      ap (count q) (applied_finish code findings),
      ap (count q) (not_applied_finish code findings),
      count-append q (select (λ f. not (has_fix f)) findings) s.conflicted,
      count_finished code findings q,
    )

-- The file that is written is the original with all applied fixes put in at once, every line number
-- read in the original: a line in the range of an applied fix gives way to the lines of that fix,
-- all other lines stay, and so does a newline at the end.
pub patched-render :
    (code : Text) (findings : List Finding)
    → let r = apply_fixes_to_file code findings in
      let lines = join_lines (render r.applied 1 (splitlines code)) in
      r.patched ≡ (if ends_with (codes "\n") code then lines ++ codes "\n" else lines)
patched-render code findings =
    patched_finish code findings
    ∙ ap (λ ls. if ends_with (codes "\n") code then join_lines ls ++ codes "\n" else join_lines ls)
        ((finish-Written code findings).lines
          ∙ ap (λ fs. render fs 1 (splitlines code)) (sym (applied_finish code findings)))
