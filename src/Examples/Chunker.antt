-- ===== src/Examples/Chunker.antt =====
-- Examples for src/ingestion/chunker.py.
use githubprojectforissueide.Prelude.{
  ℕ, ◌≡◌, refl, Bool, false, ◌&&◌, List, [], ◌∷◌, some, leb, map, inl,
}
use githubprojectforissueide.Text.{Text, codes, splitlines}
use githubprojectforissueide.Text.Words.{words}
use githubprojectforissueide.Syntax.{line_at}
use githubprojectforissueide.Analyzers.Tree.{
  Node, node, end, child, module_root, function_def, other_stmt, Kind, Children, body,
}
use githubprojectforissueide.Chunker.{CodeChunk, uncovered_ranges, starts_from, chunk_file}
use githubprojectforissueide.Chunker.Kept.{Kept, chunk_file-Kept}

-- A function on lines 3 to 5.
abbrev in_function : ℕ → Bool
in_function n = leb 3 n && leb n 5

around : uncovered_ranges 7 in_function ≡ (1, 2) ∷ (6, 7) ∷ []
unfolding uncovered_ranges
around = refl

-- The windows of 120 lines.
three_windows : starts_from 120 0 120 ≡ 0 ∷ 50 ∷ 100 ∷ []
unfolding starts_from
three_windows = refl

abbrev at_lines : ℕ → ℕ → ℕ → Kind → Children → Node
at_lines i first last k cs =
    node (record { identity = i; lineno = some first; end_lineno = some last; col_offset = 0 }) k cs

abbrev source : Text
source = codes "import os\n\ndef f():\n    pass\nf()\n"

abbrev tree : Node
tree = at_lines 0 0 0 module_root (
    child body (at_lines 1 1 1 other_stmt end) (
      child body
        (at_lines 2 3 4 (function_def false (codes "f"))
          (child body (at_lines 3 4 4 other_stmt end) end))
        (child body (at_lines 4 5 5 other_stmt end) end)))

abbrev spans_of : List CodeChunk → List (ℕ × ℕ)
spans_of = map (λ (c : CodeChunk). (c.start_line, c.end_line))

in_parts :
    spans_of (chunk_file (λ t. some tree) (codes "a.py") source) ≡ (1, 2) ∷ (3, 4) ∷ (5, 5) ∷ []
unfolding chunk_file
in_parts = refl

not_python : spans_of (chunk_file (λ t. some tree) (codes "a.txt") source) ≡ (1, 5) ∷ []
unfolding chunk_file
not_python = refl

chunk_file-Kept_example : Kept 4 (codes "pass") (chunk_file (λ t. some tree) (codes "a.py") source)
unfolding line_at splitlines words
chunk_file-Kept_example =
    chunk_file-Kept (λ t. some tree) (codes "a.py") source 4 (codes "    pass") (codes "pass") refl
      (inl refl)
