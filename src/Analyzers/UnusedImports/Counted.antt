-- ===== src/Analyzers/UnusedImports/Counted.antt =====
-- How src/analyzers/unused_import_checker.py sorts the diagnostics.
use githubprojectforissueide.Prelude.{
  ℕ, ◌+◌, ◌≡◌, ◌⊎◌, ◌∙◌, ap, inl, inr, Bool, true, false, ◌&&◌, List, [], ◌∷◌, none, some, count,
  arith, Bool-cases, if◌then◌else◌, Option-cases, ◌==◌,
}
use githubprojectforissueide.Text.{Text, codes, text_eq}
use githubprojectforissueide.Fixes.Sorting.{count-append}
use githubprojectforissueide.Analyzers.Shapes.{holds}
use githubprojectforissueide.Analyzers.Paths.{In}
use githubprojectforissueide.Analyzers.Once.{by_side}
use githubprojectforissueide.Analyzers.Names.{Unrepeated}
use githubprojectforissueide.Analyzers.UnusedImports.{
  Diagnostic, Sorted, add_to_group, sort_diagnostic, sort_diagnostics, row_in_file, fits_file,
  edit_span, quoted_name,
}

abbrev pub Groups : Type 0
Groups = List ((ℕ × ℕ) × List Text)

abbrev pub same_span : ℕ × ℕ → ℕ × ℕ → Bool
same_span s o = s.0 == o.0 && s.1 == o.1

-- How often a name is listed for the deletion of some rows.
unfoldable pub listed : ℕ × ℕ → Text → Groups → ℕ
unfolding count
listed s t [] = 0
listed s t ((o, ts) ∷ groups) =
    (if same_span s o then count (text_eq t) ts else 0) + listed s t groups

abbrev pub spans_of : Groups → List (ℕ × ℕ)
spans_of [] = []
spans_of ((o, ts) ∷ groups) = o ∷ spans_of groups

-- How often a name is listed as at a row, with nothing to delete.
unfoldable pub left_at : ℕ → Text → List (ℕ × Text) → ℕ
unfolding count
left_at row t kept = count (λ (e : ℕ × Text). row == e.0 && text_eq t e.1) kept

-- A diagnostic of an unused import at a row of the file, of the name `t`, whose fix deletes the rows `s` of
-- the file.
unfoldable pub deletes : ℕ → ℕ × ℕ → Text → Diagnostic → Bool
unfolding row_in_file fits_file edit_span quoted_name text_eq
deletes lines s t d =
    text_eq d.code (codes "F401")
    && holds (λ (k : ℕ). true) (row_in_file lines d.row)
    && holds (same_span s) (fits_file lines (edit_span d.edits))
    && text_eq t (quoted_name d.message)

-- One at `row`, of the name `t`, with no fix that deletes rows of the file.
unfoldable pub stays : ℕ → ℕ → Text → Diagnostic → Bool
unfolding row_in_file fits_file edit_span quoted_name text_eq
stays lines row t d =
    text_eq d.code (codes "F401")
    && holds (λ (k : ℕ). row == k) (row_in_file lines d.row)
    && elim (fits_file lines (edit_span d.edits)) [ none ↦ true | some span ↦ false ]
    && text_eq t (quoted_name d.message)

abbrev one_if : Bool → ℕ
one_if b = if b then 1 else 0

listed-add_to_group :
    (s span : ℕ × ℕ) (t u : Text) (groups : Groups)
    → listed s t (add_to_group span u groups)
      ≡ listed s t groups + one_if (same_span s span && text_eq t u)
unfolding listed add_to_group count
listed-add_to_group s span t u [] = ground arith
listed-add_to_group s span t u ((o, ts) ∷ groups) =
    let more = count-append (text_eq t) ts (u ∷ []) in
    elim (Bool-cases (o.0 == span.0 && o.1 == span.1)) [
      | inl same ↦ rw same ground arith
      | inr differs ↦ rw differs ground (arith, listed-add_to_group s span t u groups)
    ]

add_to_group_from :
    (span s : ℕ × ℕ) (u : Text) (groups : Groups)
    → In s (spans_of (add_to_group span u groups))
    → (s ≡ span) ⊎ In s (spans_of groups)
unfolding add_to_group
add_to_group_from span s u [] m = by_side inl (λ n. absurd n) m
add_to_group_from span s u ((o, ts) ∷ groups) m =
    elim (Bool-cases (o.0 == span.0 && o.1 == span.1)) [
      | inl same ↦ inr (rw same at m)
      | inr differs ↦
          by_side (λ e. inr (inl e))
            (λ n. by_side inl (λ k. inr (inr k)) (add_to_group_from span s u groups n))
            (rw differs at m)
    ]

add_to_group-Unrepeated :
    (span : ℕ × ℕ) (u : Text) (groups : Groups)
    → Unrepeated (spans_of groups)
    → Unrepeated (spans_of (add_to_group span u groups))
unfolding add_to_group
add_to_group-Unrepeated span u [] h = (λ n. n, tt)
add_to_group-Unrepeated span u ((o, ts) ∷ groups) h =
    elim (Bool-cases (o.0 == span.0 && o.1 == span.1)) [
      | inl same ↦ rw same h
      | inr differs ↦ rw differs (
        λ m.
            by_side
              (λ (e : o ≡ span).
                let first : o.0 ≡ span.0 = ap (λ (p : ℕ × ℕ). p.0) e in
                let last : o.1 ≡ span.1 = ap (λ (p : ℕ × ℕ). p.1) e in ground arith)
              (λ n. h.0 n) (add_to_group_from span o u groups m),
        add_to_group-Unrepeated span u groups h.1,
      )
    ]

-- What one diagnostic adds.
record Added (lines : ℕ) (d : Diagnostic) (before after : Sorted) : Type 0 where
  adds_name :
      (s : ℕ × ℕ) (t : Text)
      → listed s t after.0 ≡ listed s t before.0 + one_if (deletes lines s t d)
  adds_row :
      (row : ℕ) (t : Text)
      → left_at row t after.1 ≡ left_at row t before.1 + one_if (stays lines row t d)
  apart : Unrepeated (spans_of before.0) → Unrepeated (spans_of after.0)

sort_diagnostic-Added :
    (lines : ℕ) (sorted : Sorted) (d : Diagnostic)
    → Added lines d sorted (sort_diagnostic lines sorted d)
unfolding sort_diagnostic deletes stays left_at count
sort_diagnostic-Added lines (groups, kept) d = elim (Bool-cases (text_eq d.code (codes "F401"))) [
  | inr other ↦
      rw (sort_diagnostic, other)
        (record {
          adds_name = λ s t. rw (deletes, other) omega arith;
          adds_row = λ row t. rw (stays, other) omega arith;
          apart = λ h. h;
        })
  | inl unused ↦ elim (Option-cases (row_in_file lines d.row)) [
    | inl outside ↦
        rw (sort_diagnostic, unused, outside)
          (record {
            adds_name = λ s t. rw (deletes, unused, outside) omega arith;
            adds_row = λ row t. rw (stays, unused, outside) omega arith;
            apart = λ h. h;
          })
    | inr (k, inside) ↦ elim (Option-cases (fits_file lines (edit_span d.edits))) [
      | inl no_span ↦
          rw (sort_diagnostic, unused, inside, no_span)
            (record {
              adds_name = λ s t. rw (deletes, unused, inside, no_span) omega arith;
              adds_row = λ row t.
                  rw (stays, unused, inside, no_span)
                    (count-append (λ (e : ℕ × Text). row == e.0 && text_eq t e.1) kept
                        ((k, quoted_name d.message) ∷ [])
                      ∙ ground arith);
              apart = λ h. h;
            })
      | inr (span, fits) ↦
          rw (sort_diagnostic, unused, inside, fits)
            (record {
              adds_name = λ s t.
                  rw (deletes, unused, inside, fits)
                    (listed-add_to_group s span t (quoted_name d.message) groups);
              adds_row = λ row t. rw (stays, unused, inside, fits) ground arith;
              apart = add_to_group-Unrepeated span (quoted_name d.message) groups;
            })
    ]
  ]
]

module _ (lines : ℕ) where
  listed-sort_diagnostics :
      (s : ℕ × ℕ) (t : Text) (sorted : Sorted) (ds : List Diagnostic)
      → listed s t (sort_diagnostics lines sorted ds).0
        ≡ listed s t sorted.0 + count (deletes lines s t) ds
  unfolding sort_diagnostics count
  listed-sort_diagnostics s t sorted [] = omega arith
  listed-sort_diagnostics s t sorted (d ∷ ds) = omega (
    arith,
    listed-sort_diagnostics s t (sort_diagnostic lines sorted d) ds,
    (sort_diagnostic-Added lines sorted d).adds_name s t,
  )

  left_at-sort_diagnostics :
      (row : ℕ) (t : Text) (sorted : Sorted) (ds : List Diagnostic)
      → left_at row t (sort_diagnostics lines sorted ds).1
        ≡ left_at row t sorted.1 + count (stays lines row t) ds
  unfolding sort_diagnostics count
  left_at-sort_diagnostics row t sorted [] = omega arith
  left_at-sort_diagnostics row t sorted (d ∷ ds) = omega (
    arith,
    left_at-sort_diagnostics row t (sort_diagnostic lines sorted d) ds,
    (sort_diagnostic-Added lines sorted d).adds_row row t,
  )

  sort_diagnostics-Unrepeated :
      (sorted : Sorted) (ds : List Diagnostic)
      → Unrepeated (spans_of sorted.0)
      → Unrepeated (spans_of (sort_diagnostics lines sorted ds).0)
  unfolding sort_diagnostics
  sort_diagnostics-Unrepeated sorted [] h = h
  sort_diagnostics-Unrepeated sorted (d ∷ ds) h =
      sort_diagnostics-Unrepeated (sort_diagnostic lines sorted d) ds
        ((sort_diagnostic-Added lines sorted d).apart h)

-- For the same rows there is at most one deletion. For its rows a name is listed as often as there is a diagnostic
-- of that name, of an unused import at a row of the file, whose fix deletes exactly those rows; and with
-- nothing to delete a name is listed at a row as often as there is such a diagnostic at that row whose fix
-- deletes no rows of the file.
pub sort_diagnostics_total :
    (lines : ℕ) (ds : List Diagnostic)
    → let sorted = sort_diagnostics lines ([], []) ds in
      Unrepeated (spans_of sorted.0)
      × ((s : ℕ × ℕ) (t : Text) → listed s t sorted.0 ≡ count (deletes lines s t) ds)
      × ((row : ℕ) (t : Text) → left_at row t sorted.1 ≡ count (stays lines row t) ds)
unfolding listed left_at count
sort_diagnostics_total lines ds = (
  sort_diagnostics-Unrepeated lines ([], []) ds tt,
  λ s t. listed-sort_diagnostics lines s t ([], []) ds ∙ omega arith,
  λ row t. left_at-sort_diagnostics lines row t ([], []) ds ∙ omega arith,
)
