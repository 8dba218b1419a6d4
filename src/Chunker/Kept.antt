-- ===== src/Chunker/Kept.antt =====
-- What the chunks of src/ingestion/chunker.py keep of a file.
use githubprojectforissueide.Prelude.{
  ℕ, zero, suc, ◌+◌, ◌-◌, ◌<◌, ◌≤◌, ◌≡◌, refl, sym, subst, Bool, true, false, ◌&&◌, List, ◌++◌,
  Option, none, some, length, take, drop, leb, ltb, arith, Bool-cases, Option-cases, inl, inr,
  if◌then◌else◌,
}
use githubprojectforissueide.Text.{Text, codes, ends_with, splitlines, join_lines}
use githubprojectforissueide.Text.Words.{words}
use githubprojectforissueide.Text.Stripped.{words-strip}
use githubprojectforissueide.Syntax.{slice, line_at}
use githubprojectforissueide.Analyzers.Tree.{Node}
use githubprojectforissueide.Analyzers.Shapes.{filter_map}
use githubprojectforissueide.Analyzers.Utils.{line_of, end_line_of}
use githubprojectforissueide.Analyzers.Paths.{In, In-append_left, In-append_right}
use githubprojectforissueide.Analyzers.Members.{filter_map_of, In-map_from, line_at_lt}
use githubprojectforissueide.Chunker
use githubprojectforissueide.Chunker.{CodeChunk, ChunkType}
use githubprojectforissueide.Chunker.Ranges.{holding, uncovered_ranges-holding}
use githubprojectforissueide.Chunker.Words.{words-join_lines, strip-word, word-splitlines}
use githubprojectforissueide.Chunker.Picked.{
  any_from, count_from, In-sort_by, batched_line, line_at-In,
}

-- A chunk of which the lines hold line `k`, and the content the word `w`.
abbrev pub Keeps : ℕ → Text → CodeChunk → Type 0
Keeps k w c = (c.start_line ≤ k) × (k ≤ c.end_line) × In w (words c.content)

abbrev pub Kept : ℕ → Text → List CodeChunk → Type 0
Kept k w chunks = (c : CodeChunk) × In c chunks × Keeps k w c

text_chunk-Keeps :
    (filename : Text) (batch : List Text) (start last : ℕ) (chunk_type : ChunkType) (k : ℕ)
    (line w : Text)
    → In line batch
    → In w (words line)
    → start ≤ k
    → k ≤ last
    → (c : CodeChunk) × (Chunker.text_chunk filename batch start last chunk_type ≡ some c)
      × Keeps k w c
unfolding Chunker.text_chunk
text_chunk-Keeps filename batch start last chunk_type k line w m there from to =
    let kept = words-join_lines batch line w m there in
    let full = strip-word (join_lines batch) w kept in
    rw full (_, refl, (from, to, subst (In w) (sym (words-strip (join_lines batch))) kept))

definition_chunks-Kept :
    (filename : Text) (lines : List Text) (tree : Node) (k : ℕ) (line w : Text)
    → line_at lines k ≡ some line
    → In w (words line)
    → Chunker.is_covered (Chunker.definition_chunks filename lines tree) k ≡ true
    → Kept k w (Chunker.definition_chunks filename lines tree)
unfolding Chunker.is_covered Chunker.definition_chunks Chunker.definition_chunk Chunker.holds_line
definition_chunks-Kept filename lines tree k line w at there h =
    let (c, m, held) = any_from (Chunker.holds_line k) _ h in
    let (n, inside, e) = In-map_from _ _ c m in
    let there_held = subst (λ x. Chunker.holds_line k x ≡ true) (sym e) held in
    let (from, to) : (line_of n ≤ k) × (k ≤ end_line_of n) = ground arith in
    let (pos, inside_file) = line_at_lt lines k at in
    let first = line_of n - 1 in
    let (cut, within) =
      batched_line lines first (end_line_of n - first) k line at (omega arith) (omega arith) in
    (
      c,
      m,
      subst (Keeps k w) e
          (from, to, words-join_lines (slice first (end_line_of n) lines) line w cut there),
    )

starts_from_cover :
    (fuel i stop j : ℕ)
    → stop ≤ i + fuel
    → i ≤ j
    → j < stop
    → (s : ℕ) × In s (Chunker.starts_from fuel i stop) × (s ≤ j) × (j < s + 50)
unfolding Chunker.starts_from
starts_from_cover zero i stop j p q r = absurd (omega arith)
starts_from_cover (suc fuel) i stop j p q r =
    let within : ltb i stop ≡ true = ground arith in
    elim (Bool-cases (ltb j (i + 50))) [
      | inl near ↦ rw within (i, inl refl, q, ground arith)
      | inr far ↦
          let (s, m, le, lt) =
            starts_from_cover fuel (i + 50) stop j (omega arith) (ground arith) r in
          rw within (s, inr m, le, lt)
    ]

chunk_by_window-Kept :
    (filename content : Text) (k : ℕ) (line w : Text)
    → line_at (splitlines content) k ≡ some line
    → In w (words line)
    → Kept k w (Chunker.chunk_by_window filename content)
unfolding Chunker.chunk_by_window Chunker.window_at
chunk_by_window-Kept filename content k line w at there =
    let lines = splitlines content in
    let (pos, inside) = line_at_lt lines k at in
    let (s, m, le, lt) =
      starts_from_cover (length lines) 0 (length lines) (k - 1) (omega arith) (omega arith)
        (omega arith) in
    let (cut, within) = batched_line lines s 60 k line at (omega arith) (omega arith) in
    let (c, made, keeps) =
      text_chunk-Keeps filename (take 60 (drop s lines)) (s + 1)
        (s + length (take 60 (drop s lines))) Chunker.window_chunk k line w cut there (omega arith)
        within in
    (c, filter_map_of (Chunker.window_at filename lines) _ c s m made, keeps)

range_chunks-Kept :
    (filename : Text) (lines : List Text) (covered : ℕ → Bool) (k : ℕ) (line w : Text)
    → line_at lines k ≡ some line
    → In w (words line)
    → covered k ≡ false
    → Kept k w (
        filter_map
          (Chunker.range_chunk filename lines)
          (Chunker.uncovered_ranges (length lines) covered))
unfolding Chunker.range_chunk holding
range_chunks-Kept filename lines covered k line w at there outside =
    let (pos, inside) = line_at_lt lines k at in
    let one = rw outside at (uncovered_ranges-holding (length lines) k covered pos inside) in
    let ((start, last), m, held) =
      count_from (λ r. leb r.0 k && leb k r.1) (Chunker.uncovered_ranges (length lines) covered)
        (omega arith) in
    let (from, to) : (start ≤ k) × (k ≤ last) = ground arith in
    let first = start - 1 in
    let (cut, within) =
      batched_line lines first (last - first) k line at (omega arith) (omega arith) in
    let (c, made, keeps) =
      text_chunk-Keeps filename (slice first last lines) start last Chunker.module_chunk k line w
        cut there from to in
    (c, filter_map_of (Chunker.range_chunk filename lines) _ c (start, last) m made, keeps)

Kept-left : (k : ℕ) (w : Text) (cs ds : List CodeChunk) → Kept k w cs → Kept k w (cs ++ ds)
Kept-left k w cs ds (c, m, keeps) = (c, In-append_left c cs ds m, keeps)

Kept-right : (k : ℕ) (w : Text) (cs ds : List CodeChunk) → Kept k w ds → Kept k w (cs ++ ds)
Kept-right k w cs ds (c, m, keeps) = (c, In-append_right c cs ds m, keeps)

chunk_python_ast-Kept :
    (filename content : Text) (tree : Node) (k : ℕ) (line w : Text)
    → line_at (splitlines content) k ≡ some line
    → In w (words line)
    → Kept k w (Chunker.chunk_python_ast filename content tree)
unfolding Chunker.chunk_python_ast
chunk_python_ast-Kept filename content tree k line w at there =
    let lines = splitlines content in
    let chunks = Chunker.definition_chunks filename lines tree in
    let all_chunks : Kept k w (
        chunks
        ++ filter_map (Chunker.range_chunk filename lines)
            (Chunker.uncovered_ranges (length lines) (Chunker.is_covered chunks))) =
      elim (Bool-cases (Chunker.is_covered chunks k)) [
        | inl inner ↦
            Kept-left k w chunks _
              (definition_chunks-Kept filename lines tree k line w at there inner)
        | inr outer ↦
            Kept-right k w chunks _
              (range_chunks-Kept filename lines (Chunker.is_covered chunks) k line w at there outer)
      ] in
    let (c, m, keeps) = all_chunks in (c, In-sort_by _ c _ m, keeps)

-- Chunking a file, Python or not and whether or not it can be parsed, loses no word of it: each word of
-- each line is a word of the content of a chunk whose lines hold that line.
pub chunk_file-Kept :
    (parse : Text → Option Node) (filename content : Text) (k : ℕ) (line w : Text)
    → line_at (splitlines content) k ≡ some line
    → In w (words line)
    → Kept k w (Chunker.chunk_file parse filename content)
unfolding Chunker.chunk_file
chunk_file-Kept parse filename content k line w at there =
    let full = word-splitlines content line w (line_at-In (splitlines content) k line at) there in
    elim (Option-cases (if ends_with (codes ".py") filename then parse content else none)) [
      | inl unparsed ↦ rw (full, unparsed) (chunk_by_window-Kept filename content k line w at there)
      | inr (tree, parsed) ↦
          rw (full, parsed) (chunk_python_ast-Kept filename content tree k line w at there)
    ]
