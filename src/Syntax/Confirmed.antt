-- ===== src/Syntax/Confirmed.antt =====
-- The indentation fixes of src/core/orchestrator.py, what they change and who accepts it.
use githubprojectforissueide.Prelude.{
  ℕ, zero, suc, ◌-◌, ◌≤◌, ◌<◌, ◌≡◌, refl, sym, ap, subst, ◌∙◌, List, [], ◌∷◌, ◌++◌, none, some, map,
  take, drop, length, arith, inl, inr, ◌>>=◌, >>=-eq-some, Option-cases,
}
use githubprojectforissueide.Text.{Text, codes, splitlines, join_lines, indent}
use githubprojectforissueide.Syntax.Base.{Python, SyntaxError, line_at}
use githubprojectforissueide.Syntax.Lines.{slice, map_range, indent_line, largest_span}
use githubprojectforissueide.Syntax.Indent.{
  BlockFix, IndentHeader, indent_header, indent_span, indent_patch, indent_offset, indent_result,
  missing_indent_search,
}
use githubprojectforissueide.Syntax.Misaligned.{
  shift_lines, shift_patch, try_levels, level_result, misaligned_line, misaligned_result,
  misaligned_indent_search,
}
use githubprojectforissueide.Syntax.Search.{largest_span-some}
use githubprojectforissueide.Syntax.Patches.{
  bare, bare-indent_lines, bare-shift_lines, take-patch, drop-patch, bare-patch,
}

-- A fix of lines `first` to `last` that the interpreter has confirmed: there is a patched file that
-- compiles, which has the lines of the fix in that range, the lines of the file before and behind
-- it, and on every line the same text behind the white space it starts with.
pub record Confirmed (py : Python) (lines : List Text) (first last : ℕ) (fix : Text) : Type 0 where
  pub patched : List Text
  pub written : fix ≡ join_lines (slice (first - 1) last patched)
  pub accepted : py.compile (join_lines patched) (codes "<string>") ≡ none
  pub before : take (first - 1) patched ≡ take (first - 1) lines
  pub behind : drop last patched ≡ drop last lines
  pub same_code : bare patched ≡ bare lines
  pub ordered : (0 < first) × (first ≤ last)

pub some_inj {ℓ} : {A : Type ℓ} {a b : A} → some a ≡ some b → a ≡ b
some_inj h = cc

pub line_at_bounds :
    (lines : List Text) (n : ℕ) {line : Text}
    → line_at lines n ≡ some line
    → (0 < n) × (n ≤ length lines)
unfolding line_at
line_at_bounds lines zero h = cc
line_at_bounds [] (suc n) h = cc
line_at_bounds (l ∷ lines) (suc zero) h = omega arith
line_at_bounds (l ∷ lines) (suc (suc n)) h = omega (arith, line_at_bounds lines (suc n) h)

indent_header_line :
    (code : Text) (e : SyntaxError) {h : IndentHeader}
    → indent_header code e ≡ some h
    → line_at (splitlines code) e.lineno ≡ some h.first_line
unfolding indent_header
indent_header_line code e h = ground arith

misaligned_line_lem :
    (code : Text) (e : SyntaxError) {line : Text}
    → misaligned_line code e ≡ some line
    → line_at (splitlines code) e.lineno ≡ some line
unfolding misaligned_line
misaligned_line_lem code e h = ground arith

pub made-Confirmed :
    (py : Python) (lines : List Text) (first last : ℕ) (span patched : List Text)
    → (0 < first) × (first ≤ length lines)
    → first ≤ last
    → bare span ≡ bare (slice (first - 1) last lines)
    → patched ≡ take (first - 1) lines ++ (span ++ drop last lines)
    → py.compile (join_lines patched) (codes "<string>") ≡ none
    → Confirmed py lines first last (join_lines (slice (first - 1) last patched))
made-Confirmed py lines first last span patched bounds ordered same made accepted =
    let inside : first - 1 ≤ length lines = omega arith in
    let below : first - 1 ≤ last = omega arith in
    record {
      patched = patched;
      written = refl;
      accepted = accepted;
      before =
          ap (take (first - 1)) made ∙ take-patch lines (first - 1) last span inside below same;
      behind = ap (drop last) made ∙ drop-patch lines (first - 1) last span inside below same;
      same_code = ap bare made ∙ bare-patch lines (first - 1) last span inside below same;
      ordered = (bounds.0, ordered);
    }

indent_span_lem :
    (py : Python) (lines : List Text) (lineno : ℕ) (h : IndentHeader)
    → (n : ℕ) × (indent_span py lines lineno h
        ≡ largest_span py (indent_patch lines lineno (indent_offset h)) lineno n)
unfolding indent_span
indent_span_lem py lines lineno h = (_, refl)

indent_span-Confirmed :
    (py : Python) (lines : List Text) (lineno : ℕ) (h : IndentHeader) (r : ℕ × List Text)
    → (0 < lineno) × (lineno ≤ length lines)
    → indent_span py lines lineno h ≡ some r
    → Confirmed py lines lineno (indent_result lineno h r).1 (indent_result lineno h r).0
indent_span-Confirmed py lines lineno h (last, patched) bounds e =
    let (n, found_span) = indent_span_lem py lines lineno h in
    let found =
      largest_span-some py (indent_patch lines lineno (indent_offset h)) lineno n last patched
        (sym found_span ∙ e) in
    made-Confirmed py lines lineno last
      (map (indent_line (indent_offset h)) (slice (lineno - 1) last lines)) patched bounds found.2
      (bare-indent_lines (indent_offset h) (slice (lineno - 1) last lines))
      (unfold map_range in cc (found.0)) found.1

pub missing_indent-Confirmed :
    (py : Python) (code : Text) (e : SyntaxError) (r : BlockFix)
    → missing_indent_search py code e ≡ some r
    → Confirmed py (splitlines code) e.lineno r.1 r.0
missing_indent-Confirmed py code e r h =
    let lines = splitlines code in
    let h' : (indent_header code e >>= λ t.
    indent_span py lines e.lineno t >>= λ r. some (indent_result e.lineno t r))
        ≡ some r =
      unfold missing_indent_search in h in
    let (header, found, rest) =
      >>=-eq-some (indent_header code e)
        (λ t. indent_span py lines e.lineno t >>= λ r. some (indent_result e.lineno t r)) h' in
    let (span, spanned, result) =
      >>=-eq-some (indent_span py lines e.lineno header)
        (λ r. some (indent_result e.lineno header r)) rest in
    let bounds = line_at_bounds lines e.lineno (indent_header_line code e found) in
    let same : indent_result e.lineno header span ≡ r = some_inj result in
    subst (λ (t : BlockFix). Confirmed py lines e.lineno t.1 t.0) same
      (indent_span-Confirmed py lines e.lineno header span bounds spanned)

shift_patch_made :
    (lines : List Text) (lineno a b last : ℕ) {patched : List Text}
    → shift_patch lines lineno a b last ≡ some patched
    → (span : List Text) × (bare span ≡ bare (slice (lineno - 1) last lines))
      × (patched ≡ take (lineno - 1) lines ++ (span ++ drop last lines))
shift_patch_made lines lineno a b last h =
    let (span, shifted, e) =
      >>=-eq-some (shift_lines a b (slice (lineno - 1) last lines))
        (λ span. some (take (lineno - 1) lines ++ (span ++ drop last lines))) h in
    (span, bare-shift_lines a b (slice (lineno - 1) last lines) shifted, sym (some_inj e))

module _ (py : Python) (lines : List Text) (lineno first_indent max_end target : ℕ)
    (levels : List ℕ) where
  try_levels_next :
      largest_span py (shift_patch lines lineno first_indent target) lineno (suc max_end - lineno)
        ≡ none
      → try_levels py lines lineno first_indent max_end (target ∷ levels)
        ≡ try_levels py lines lineno first_indent max_end levels
  unfolding try_levels
  try_levels_next h = rw (h, try_levels)

  try_levels_here :
      {r : ℕ × List Text}
      → largest_span py (shift_patch lines lineno first_indent target) lineno (suc max_end - lineno)
        ≡ some r
      → try_levels py lines lineno first_indent max_end (target ∷ levels)
        ≡ some (level_result lineno first_indent target r)
  unfolding try_levels
  try_levels_here h = rw (h, try_levels)

try_levels-Confirmed :
    (py : Python) (lines : List Text) (lineno first_indent max_end : ℕ) (levels : List ℕ)
    (r : BlockFix)
    → (0 < lineno) × (lineno ≤ length lines)
    → try_levels py lines lineno first_indent max_end levels ≡ some r
    → Confirmed py lines lineno r.1 r.0
try_levels-Confirmed py lines lineno first_indent max_end [] r bounds h = unfold try_levels in cc
try_levels-Confirmed py lines lineno first_indent max_end (target ∷ levels) r bounds h =
    elim (Option-cases (
      largest_span py (shift_patch lines lineno first_indent target) lineno
        (suc max_end - lineno))) [
          | inl failed ↦
              try_levels-Confirmed py lines lineno first_indent max_end levels r bounds (
                sym (try_levels_next py lines lineno first_indent max_end target levels failed) ∙ h)
          | inr ((last, patched), found) ↦
              let facts =
                largest_span-some py (shift_patch lines lineno first_indent target) lineno
                  (suc max_end - lineno) last patched found in
              let (span, same, made) =
                shift_patch_made lines lineno first_indent target last facts.0 in
              subst (λ (t : BlockFix). Confirmed py lines lineno t.1 t.0)
                (some_inj (
                  sym (try_levels_here py lines lineno first_indent max_end target levels found)
                  ∙ h))
                (made-Confirmed py lines lineno last span patched bounds facts.2 same made facts.1)
        ]

misaligned_result_lem :
    (py : Python) (lines : List Text) (lineno : ℕ) (line : Text)
    → (max_end : ℕ) × (levels : List ℕ) × (misaligned_result py lines lineno line
        ≡ try_levels py lines lineno (indent line) max_end levels)
unfolding misaligned_result
misaligned_result_lem py lines lineno line = (_, _, refl)

pub misaligned-Confirmed :
    (py : Python) (code : Text) (e : SyntaxError) (r : BlockFix)
    → misaligned_indent_search py code e ≡ some r
    → Confirmed py (splitlines code) e.lineno r.1 r.0
misaligned-Confirmed py code e r h =
    let lines = splitlines code in
    let h' : (misaligned_line code e >>= λ t. misaligned_result py lines e.lineno t) ≡ some r =
      unfold misaligned_indent_search in h in
    let (line, found, rest) =
      >>=-eq-some (misaligned_line code e) (λ t. misaligned_result py lines e.lineno t) h' in
    let bounds = line_at_bounds lines e.lineno (misaligned_line_lem code e found) in
    let (max_end, levels, tried) = misaligned_result_lem py lines e.lineno line in
    try_levels-Confirmed py lines e.lineno (indent line) max_end levels r bounds (sym tried ∙ rest)
