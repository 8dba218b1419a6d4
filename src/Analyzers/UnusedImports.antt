-- ===== src/Analyzers/UnusedImports.antt =====
-- src/analyzers/unused_import_checker.py. What ruff reports is a parameter: its diagnostics, or nothing where it
-- cannot be run or read.
pub mod Counted
use githubprojectforissueide.Prelude.{
  ℕ, ◌-◌, ◌==◌, Bool, true, not, ◌&&◌, List, [], ◌∷◌, ◌++◌, Option, none, some, length, map,
  if◌then◌else◌, ◌>>=◌, ◌>>◌, guard, ltb, leb,
}
use githubprojectforissueide.Text.{Text, codes, text_eq, splitlines, is_empty}
use githubprojectforissueide.Models.{Finding, info}
use githubprojectforissueide.Syntax.{line_at}
use githubprojectforissueide.Analyzers.Tree.{names}
use githubprojectforissueide.Analyzers.Shapes.{holds, filter_map}
use githubprojectforissueide.Analyzers.Reports.{report}
use githubprojectforissueide.Analyzers.UnstoredParams.{join_with}

pub record Edit : Type 0 where
  pub content : Text
  pub start_row : Option ℕ
  pub start_column : Option ℕ
  pub end_row : Option ℕ
  pub end_column : Option ℕ

pub record Diagnostic : Type 0 where
  pub code : Text
  pub row : Option ℕ
  pub message : Text
  pub edits : List Edit

-- A row that is there and is not 0.
abbrev row_of : Option ℕ → Option ℕ
row_of none = none
row_of (some k) = if k == 0 then none else some k

abbrev is_first : Option ℕ → Bool
is_first = holds (λ k. k == 1)

-- The rows that the first edit deletes, from a row's start on.
unfoldable pub edit_span : List Edit → Option (ℕ × ℕ)
unfolding is_empty
edit_span [] = none
edit_span (edit ∷ more) = do
  guard (is_empty edit.content)
  guard (is_first edit.start_column)
  start ← row_of edit.start_row
  last ← row_of edit.end_row
  some (start, if is_first edit.end_column then last - 1 else last)

-- `text.split("`")[1]`, and the text behind the first backtick.
unfoldable pub up_to_backtick : Text → Text
up_to_backtick [] = []
up_to_backtick (c ∷ t) = let rest = up_to_backtick t in if c == 0x60 then [] else c ∷ rest

unfoldable pub quoted_name : Text → Text
unfolding up_to_backtick
quoted_name [] = codes "?"
quoted_name (c ∷ t) = if c == 0x60 then up_to_backtick t else quoted_name t

-- `groups.setdefault(span, []).append(t)`
unfoldable pub add_to_group : ℕ × ℕ → Text → List ((ℕ × ℕ) × List Text) → List ((ℕ × ℕ) × List Text)
add_to_group span t [] = (span, t ∷ []) ∷ []
add_to_group span t ((other, ts) ∷ more) =
    let rest = add_to_group span t more in
    if other.0 == span.0 && other.1 == span.1
    then (other, ts ++ t ∷ []) ∷ more
    else (other, ts) ∷ rest

-- The deletions, by their rows, and the names that nothing is deleted for.
abbrev pub Sorted : Type 0
Sorted = List ((ℕ × ℕ) × List Text) × List (ℕ × Text)

unfoldable pub fits_file : ℕ → Option (ℕ × ℕ) → Option (ℕ × ℕ)
fits_file count none = none
fits_file count (some span) =
    if ltb 0 span.0 && leb span.0 count && leb span.1 count then some span else none

unfoldable pub row_in_file : ℕ → Option ℕ → Option ℕ
row_in_file count row = row_of row >>= (λ k. if leb k count then some k else none)

unfoldable pub sort_diagnostic : ℕ → Sorted → Diagnostic → Sorted
unfolding text_eq row_in_file fits_file quoted_name edit_span add_to_group
sort_diagnostic count sorted d =
    if text_eq d.code (codes "F401")
    then elim (row_in_file count d.row) [
      | none ↦ sorted
      | some row ↦ elim (fits_file count (edit_span d.edits)) [
        | none ↦ (sorted.0, sorted.1 ++ (row, quoted_name d.message) ∷ [])
        | some span ↦ (add_to_group span (quoted_name d.message) sorted.0, sorted.1)
      ]
    ]
    else sorted

unfoldable pub sort_diagnostics : ℕ → Sorted → List Diagnostic → Sorted
unfolding sort_diagnostic
sort_diagnostics count sorted [] = sorted
sort_diagnostics count sorted (d ∷ ds) = sort_diagnostics count (sort_diagnostic count sorted d) ds

unfoldable pub deletion_finding : Text → List Text → (ℕ × ℕ) × List Text → Option Finding
unfolding line_at join_with report
deletion_finding filename lines (span, ts) = do
  line ← line_at lines span.0
  some
      (record (report (codes "unused_import_checker") filename span.0
        (if ltb span.0 span.1 then span.1 else 0) (codes "style") info
        (join_with (codes ", ") (map (λ t. codes "'" ++ t ++ codes "'") ts)
          ++ codes
              " imported but never used anywhere in the file — the whole import statement can be removed.")
        line []) { fix_is_deletion = true })

unfoldable pub unused_finding : Text → List Text → ℕ × Text → Option Finding
unfolding line_at report
unused_finding filename lines (row, t) = do
  line ← line_at lines row
  some (
      report (codes "unused_import_checker") filename row 0 (codes "style") info
        (codes "'" ++ t ++ codes "' is imported but never used anywhere in the file.") line [])

unfoldable pub import_findings : Text → List Text → Sorted → List Finding
unfolding filter_map deletion_finding unused_finding
import_findings filename lines (groups, no_fix) =
    filter_map (deletion_finding filename lines) groups
    ++ filter_map (unused_finding filename lines) no_fix

unfoldable pub detect_unused_imports :
    (Text → Text → Option (List Diagnostic)) → Text → Text → List Finding
unfolding import_findings sort_diagnostics splitlines
detect_unused_imports run_ruff code filename = elim (run_ruff code filename) [
  | none ↦ []
  | some diagnostics ↦
      import_findings filename (splitlines code)
        (sort_diagnostics (length (splitlines code)) ([], []) diagnostics)
]
