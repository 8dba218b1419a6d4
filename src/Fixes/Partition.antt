-- ===== src/Fixes/Partition.antt =====
-- The grouping of `apply_fixes_to_file`, finding by finding.
use githubprojectforissueide.Prelude.{
  ℕ, ◌+◌, ◌≡◌, refl, Bool, true, ◌&&◌, List, [], ◌∷◌, ◌++◌, arith, leb, max, Bool-cases, inl, inr,
  count,
}
use githubprojectforissueide.Models.{Finding}
use githubprojectforissueide.Fixes.Spans.{start_line, last_line}
use githubprojectforissueide.Fixes.{append_last, is_nonempty, group_loop, split_groups}
use githubprojectforissueide.Fixes.Sorting.{count-append}

module _ (q : Finding → Bool) where
  -- The findings in all groups that pass the test.
  total : List (List Finding) → ℕ
  total [] = 0
  total (g ∷ gs) = count q g + total gs

  total-append : (gs hs : List (List Finding)) → total (gs ++ hs) ≡ total gs + total hs
  unfolding total
  total-append [] hs = omega arith
  total-append (g ∷ gs) hs = omega (arith, total-append gs hs)

  total-append_last :
      (gs : List (List Finding)) (f : Finding)
      → is_nonempty gs ≡ true
      → total (append_last gs f) ≡ total gs + count q (f ∷ [])
  unfolding total append_last
  total-append_last [] f h = cc
  total-append_last (g ∷ []) f h = omega (arith, count-append q g (f ∷ []))
  total-append_last (g ∷ k ∷ gs) f h = omega (arith, total-append_last (k ∷ gs) f refl)

  total-singleton :
      (gs : List (List Finding)) (f : Finding)
      → total (gs ++ (f ∷ []) ∷ []) ≡ total gs + count q (f ∷ [])
  total-singleton gs f = rw total-append (unfold total in omega arith)

  total-group_loop :
      (xs : List Finding) (gs : List (List Finding)) (m : ℕ)
      → total (group_loop gs m xs) ≡ total gs + count q xs
  unfolding group_loop count
  total-group_loop [] gs m = omega arith
  total-group_loop (x ∷ rest) gs m = elim (Bool-cases (is_nonempty gs && leb (start_line x) m)) [
    | inl joins ↦ rw joins (
        omega (
          arith,
          total-group_loop rest (append_last gs x) (max m (last_line x)),
          total-append_last gs x (ground arith),
        ))
    | inr opens ↦ rw opens (
        omega
          (arith, total-group_loop rest (gs ++ (x ∷ []) ∷ []) (last_line x), total-singleton gs x))
  ]

  total-split_groups :
      (gs : List (List Finding))
      → count q (split_groups gs).0 + count q (split_groups gs).1 ≡ total gs
  unfolding total split_groups count
  total-split_groups [] = omega arith
  total-split_groups ([] ∷ gs) = omega (arith, total-split_groups gs)
  total-split_groups ((f ∷ []) ∷ gs) = omega (arith, total-split_groups gs)
  total-split_groups ((f ∷ h ∷ t) ∷ gs) =
      omega (arith, count-append q (f ∷ h ∷ t) (split_groups gs).1, total-split_groups gs)

  -- Alone or in conflict, every finding of the list is there, as often.
  pub count-groups :
      (xs : List Finding)
      → let groups = group_loop [] 0 xs in
        count q (split_groups groups).0 + count q (split_groups groups).1 ≡ count q xs
  unfolding total
  count-groups xs = omega (arith, total-split_groups (group_loop [] 0 xs), total-group_loop xs [] 0)
