-- ===== src/Chunker.antt =====
-- src/ingestion/chunker.py: a file in chunks, which are functions, classes and what is between them, or
-- windows of lines.
pub mod Ranges
pub mod Kept
pub mod Words
pub mod Picked
use githubprojectforissueide.Prelude.{
  ℕ, zero, suc, ◌+◌, ◌-◌, Bool, true, false, ◌&&◌, ◌||◌, List, [], ◌∷◌, ◌++◌, Option, none, some,
  if◌then◌else◌, select, any, map, length, take, drop, leb, ltb, max,
}
use githubprojectforissueide.Text.{Text, codes, strip, is_empty, ends_with, splitlines, join_lines}
use githubprojectforissueide.Fixes.{sort_by}
use githubprojectforissueide.Syntax.{slice}
use githubprojectforissueide.Analyzers.Tree.{Node, child_nodes}
use githubprojectforissueide.Analyzers.Shapes.{is_function, is_class, definition_name, filter_map}
use githubprojectforissueide.Analyzers.Utils.{line_of, end_line_of}

pub data ChunkType : Type 0 where
  function_chunk class_chunk module_chunk window_chunk : ChunkType

pub record CodeChunk : Type 0 where
  pub filename : Text
  pub content : Text
  pub start_line : ℕ
  pub end_line : ℕ
  pub chunk_type : ChunkType
  pub name : Text

-- `if start is None: start = line`
abbrev pub start_or : ℕ → Option ℕ → ℕ
start_or line none = line
start_or line (some start) = start

-- `ranges.append((start, end))`, if there is a start
abbrev pub closed_range : ℕ → Option ℕ → List (ℕ × ℕ)
closed_range end none = []
closed_range end (some start) = (start, end) ∷ []

-- The loop of `_uncovered_ranges` from a line on, with the lines that are left, and its last step at
-- the end of `total_lines`. `covered` is the membership in the set.
unfoldable pub uncovered_loop : (ℕ → Bool) → ℕ → ℕ → ℕ → Option ℕ → List (ℕ × ℕ)
uncovered_loop covered total_lines line zero start = closed_range total_lines start
uncovered_loop covered total_lines line (suc left) start =
    let start' = if covered line then none else some (start_or line start) in
    (if covered line then closed_range (line - 1) start else [])
    ++ uncovered_loop covered total_lines (suc line) left start'

unfoldable pub uncovered_ranges : ℕ → (ℕ → Bool) → List (ℕ × ℕ)
unfolding uncovered_loop
uncovered_ranges total_lines covered = uncovered_loop covered total_lines 1 total_lines none

unfoldable pub is_definition : Node → Bool
unfolding is_function is_class
is_definition n = is_function n || is_class n

-- The chunk of a function or of a class.
unfoldable pub definition_chunk : Text → List Text → Node → CodeChunk
unfolding line_of end_line_of join_lines is_class definition_name
definition_chunk filename lines n = record {
  filename = filename;
  content = join_lines (slice (line_of n - 1) (end_line_of n) lines);
  start_line = line_of n;
  end_line = end_line_of n;
  chunk_type = if is_class n then class_chunk else function_chunk;
  name = definition_name n;
}

unfoldable pub definition_chunks : Text → List Text → Node → List CodeChunk
unfolding select is_definition definition_chunk child_nodes
definition_chunks filename lines tree =
    map (definition_chunk filename lines) (select is_definition (child_nodes tree))

-- `start <= line <= end`
unfoldable pub holds_line : ℕ → CodeChunk → Bool
holds_line k c = leb c.start_line k && leb k c.end_line

-- `line in covered`
unfoldable pub is_covered : List CodeChunk → ℕ → Bool
unfolding any holds_line
is_covered chunks k = any (holds_line k) chunks

-- A chunk of the stripped text of some lines, unless it is empty.
unfoldable pub text_chunk : Text → List Text → ℕ → ℕ → ChunkType → Option CodeChunk
unfolding strip join_lines is_empty
text_chunk filename batch start last chunk_type =
    let text = strip (join_lines batch) in
    if is_empty text
    then none
    else some (record {
      filename = filename;
      content = text;
      start_line = start;
      end_line = last;
      chunk_type = chunk_type;
      name = [];
    })

unfoldable pub range_chunk : Text → List Text → ℕ × ℕ → Option CodeChunk
unfolding text_chunk
range_chunk filename lines (start, last) =
    text_chunk filename (slice (start - 1) last lines) start last module_chunk

-- The chunks of the code of a tree, by the line that they start at.
unfoldable pub chunk_python_ast : Text → Text → Node → List CodeChunk
unfolding splitlines definition_chunks filter_map range_chunk uncovered_ranges is_covered sort_by
chunk_python_ast filename content tree =
    let lines = splitlines content in
    let chunks = definition_chunks filename lines tree in
    sort_by (λ c d. leb c.start_line d.start_line)
      (chunks
        ++ filter_map (range_chunk filename lines)
            (uncovered_ranges (length lines) (is_covered chunks)))

abbrev pub window_lines : ℕ
window_lines = 60

abbrev pub window_overlap : ℕ
window_overlap = 10

abbrev pub window_step : ℕ
window_step = max 1 (window_lines - window_overlap)

-- `range(i, stop, step)`, of at most `fuel` numbers
unfoldable pub starts_from : ℕ → ℕ → ℕ → List ℕ
starts_from zero i stop = []
starts_from (suc fuel) i stop =
    let rest = starts_from fuel (i + window_step) stop in if ltb i stop then i ∷ rest else []

unfoldable pub window_at : Text → List Text → ℕ → Option CodeChunk
unfolding text_chunk
window_at filename lines i =
    let batch = take window_lines (drop i lines) in
    text_chunk filename batch (i + 1) (i + length batch) window_chunk

unfoldable pub chunk_by_window : Text → Text → List CodeChunk
unfolding splitlines filter_map window_at starts_from
chunk_by_window filename content =
    let lines = splitlines content in
    filter_map (window_at filename lines) (starts_from (length lines) 0 (length lines))

-- `parse` is `ast.parse`, without a result where it raises SyntaxError.
unfoldable pub chunk_file : (Text → Option Node) → Text → Text → List CodeChunk
unfolding is_empty strip ends_with chunk_python_ast chunk_by_window
chunk_file parse filename content =
    if is_empty (strip content)
    then []
    else elim (if ends_with (codes ".py") filename then parse content else none) [
      | some tree ↦ chunk_python_ast filename content tree
      | none ↦ chunk_by_window filename content
    ]
