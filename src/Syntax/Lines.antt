-- ===== src/Syntax/Lines.antt =====
-- Lines and ranges of lines in the indentation fixes of src/core/orchestrator.py.
use githubprojectforissueide.Prelude.{
  ℕ, zero, suc, ◌+◌, ◌-◌, ◌*◌, Bool, true, false, not, ◌&&◌, ◌||◌, List, [], ◌∷◌, ◌++◌, map, Option,
  none, some, take, drop, leb, ◌==◌, if◌then◌else◌,
}
use githubprojectforissueide.Text.{
  Text, codes, starts_with, lstrip, is_blank, is_space, pad, show, join_lines,
}
use githubprojectforissueide.Syntax.Base.{Python}

-- `\d`, and the digits that the interpreter prints.
abbrev pub is_digit : ℕ → Bool
is_digit c = leb b'0' c && leb c b'9'

-- `(\d+)$` at the start of a text, as a number; `$` also stands before a newline that ends it.
unfoldable pub digits_to_end : Bool → ℕ → Text → Option ℕ
digits_to_end seen n [] = if seen then some n else none
digits_to_end seen n (c ∷ []) =
    if is_digit c then some (n * 10 + (c - b'0')) else if seen && c == 10 then some n else none
digits_to_end seen n (c ∷ d ∷ t) =
    let rest = digits_to_end true (n * 10 + (c - b'0')) (d ∷ t) in if is_digit c then rest else none

-- `_INDENT_HEADER_LINE.search(msg)`: the first place where "on line" and a number end the text.
unfoldable pub header_line_number : Text → Option ℕ
unfolding starts_with digits_to_end
header_line_number [] = none
header_line_number (c ∷ t) =
    let later = header_line_number t in
    if starts_with (codes "on line ") (c ∷ t)
    then elim (digits_to_end false 0 (drop 8 (c ∷ t))) [ none ↦ later | some n ↦ some n ]
    else later

abbrev starts_with_space : Text → Bool
starts_with_space [] = false
starts_with_space (c ∷ s) = is_space c

module _ (py : Python) where
  -- `\w`
  unfoldable pub is_word : ℕ → Bool
  is_word c =
      (leb b'0' c && leb c b'9')
      || (leb b'A' c && leb c b'Z')
      || (leb b'a' c && leb c b'z')
      || c == b'_'
      || (leb 128 c && py.is_wide_word c)

  -- A word of the pattern and the `\b` behind it.
  unfoldable pub keyword : Text → Text → Bool
  unfolding is_word
  keyword [] [] = true
  keyword [] (d ∷ t) = not (is_word d)
  keyword (c ∷ w) [] = false
  keyword (c ∷ w) (d ∷ t) = c == d && keyword w t

  -- `async\s+def\b`
  unfoldable pub async_def : Text → Bool
  unfolding starts_with lstrip is_space keyword
  async_def t =
      starts_with (codes "async") t
      && (starts_with_space (drop 5 t) && keyword (codes "def") (lstrip (drop 5 t)))

  -- `_NEW_DEFINITION.match(line) or _BLOCK_EXIT.match(line)`
  unfoldable pub looks_like_span_boundary : Text → Bool
  unfolding async_def
  looks_like_span_boundary line =
      let t = lstrip line in
      (async_def t
        || keyword (codes "def") t
        || keyword (codes "class") t
        || starts_with (codes "@") t)
      || (keyword (codes "return") t
          || keyword (codes "break") t
          || keyword (codes "continue") t
          || keyword (codes "raise") t)

-- `lines[s:e]`
abbrev pub slice : ℕ → ℕ → List Text → List Text
slice s e lines = take (e - s) (drop s lines)

-- `for idx in range(s, e): lines[idx] = f(lines[idx])`
unfoldable pub map_range : ℕ → ℕ → (Text → Text) → List Text → List Text
map_range s e f lines = take s lines ++ (map f (slice s e lines) ++ drop e lines)

-- "that line" or "lines a-b"
unfoldable pub span_text : ℕ → ℕ → Text
unfolding show
span_text first last =
    if last == first
    then codes "that line"
    else codes "lines " ++ (show first ++ (codes "-" ++ show last))

-- `" " * offset + line`, but a blank line stays.
unfoldable pub indent_line : ℕ → Text → Text
unfolding is_blank pad
indent_line offset line = if is_blank line then line else pad offset line

-- `" " * n + line.lstrip()`
unfoldable pub reindent : ℕ → Text → Text
unfolding lstrip pad
reindent n line = pad n (lstrip line)

-- The loops over `end_line`, from the largest span down: `patch` makes the patched lines up to
-- `lineno + k`, or fails, and the interpreter has to accept them. `n` spans are tried.
unfoldable pub largest_span : Python → (ℕ → Option (List Text)) → ℕ → ℕ → Option (ℕ × List Text)
largest_span py patch lineno zero = none
largest_span py patch lineno (suc k) =
    let smaller = largest_span py patch lineno k in
    elim (patch (lineno + k)) [
      | none ↦ smaller
      | some patched ↦ elim (py.compile (join_lines patched) (codes "<string>")) [
        | none ↦ some (lineno + k, patched)
        | some _ ↦ smaller
      ]
    ]
