-- ===== src/Syntax/Above.antt =====
-- The fix of `_misaligned_indent_backward_fix` in src/core/orchestrator.py, as the other two.
use githubprojectforissueide.Prelude.{
  ℕ, zero, suc, ◌+◌, ◌-◌, ◌≤◌, ◌<◌, ◌≡◌, refl, sym, ap₂, subst, subst₂, ◌∙◌, true, List, [], ◌∷◌,
  ◌++◌, Option, none, some, take, drop, length, arith, ltb, Bool-cases, inl, inr, ◌>>=◌,
  >>=-eq-some, get_elem?,
}
use githubprojectforissueide.Text.{Text, codes, splitlines, join_lines, indent}
use githubprojectforissueide.Syntax.Base.{Python, SyntaxError}
use githubprojectforissueide.Syntax.Lines.{slice}
use githubprojectforissueide.Syntax.Misaligned.{misaligned_line}
use githubprojectforissueide.Syntax.Backward.{
  RangeFix, compiles, if_compiles, shift_block, last_nonblank, line_above, block_begin, block_patch,
  block_result, backward_result, backward_search,
}
use githubprojectforissueide.Syntax.Confirmed.{Confirmed, made-Confirmed, some_inj}
use githubprojectforissueide.Syntax.Patches.{bare, bare-shift_block}

none_ne_some {ℓ} : {A : Type ℓ} {a : A} → none ≡ some a → ⊥
none_ne_some h = cc

block_begin-le : (lines : List Text) (block_indent k : ℕ) → block_begin lines block_indent k ≤ k
unfolding block_begin
block_begin-le lines block_indent zero = omega arith
block_begin-le lines block_indent (suc k) = ground (arith, block_begin-le lines block_indent k)

get_elem?_bound {ℓ} :
    {A : Type ℓ} (xs : List A) (i : ℕ) {a : A} → get_elem? xs i ≡ some a → i < length xs
get_elem?_bound [] i h = cc
get_elem?_bound (x ∷ xs) zero h = omega arith
get_elem?_bound (x ∷ xs) (suc i) h = omega (arith, get_elem?_bound xs i h)

line_above_bound :
    (lines : List Text) (lineno : ℕ) {a : ℕ × Text}
    → line_above lines lineno ≡ some a
    → a.0 < length lines
unfolding line_above
line_above_bound lines lineno {a} h =
    let (start, found, rest) =
      >>=-eq-some (last_nonblank lines (lineno - 1))
        (λ (i : ℕ). get_elem? lines i >>= λ l. some (i, l)) h in
    let (line, there, e) = >>=-eq-some (get_elem? lines start) (λ l. some (start, l)) rest in
    subst (λ (t : ℕ × Text). t.0 < length lines) (some_inj e) (get_elem?_bound lines start there)

block_patch_made :
    (lines : List Text) (a b first last : ℕ) {patched : List Text}
    → block_patch lines a b first last ≡ some patched
    → (span : List Text) × (bare span ≡ bare (slice first (suc last) lines))
      × (patched ≡ take first lines ++ (span ++ drop (suc last) lines))
block_patch_made lines a b first last h =
    let (span, shifted, e) =
      >>=-eq-some (shift_block a b (slice first (suc last) lines))
        (λ span. some (take first lines ++ (span ++ drop (suc last) lines))) h in
    (span, bare-shift_block a b (slice first (suc last) lines) shifted, sym (some_inj e))

compiles-none :
    (py : Python) (lines : List Text)
    → compiles py lines ≡ true
    → py.compile (join_lines lines) (codes "<string>") ≡ none
compiles-none py lines h = ground arith

if_compiles-some :
    (py : Python) (p : Option (List Text)) (result : List Text → RangeFix) (r : RangeFix)
    → if_compiles py p result ≡ some r
    → (patched : List Text) × (p ≡ some patched)
      × (py.compile (join_lines patched) (codes "<string>") ≡ none)
      × (result patched ≡ r)
unfolding if_compiles
if_compiles-some py none result r h = cc
if_compiles-some py (some patched) result r h = elim (Bool-cases (compiles py patched)) [
  | inl accepted ↦ (patched, refl, compiles-none py patched accepted, some_inj (rw accepted at h))
  | inr refused ↦ absurd (none_ne_some (rw refused at h))
]

-- `made-Confirmed` for a block that is given by its indices.
made_at :
    (py : Python) (lines : List Text) (b k first last : ℕ) (span patched : List Text)
    → first - 1 ≡ b
    → last ≡ suc k
    → (0 < first) × (first ≤ length lines)
    → first ≤ last
    → bare span ≡ bare (slice b (suc k) lines)
    → patched ≡ take b lines ++ (span ++ drop (suc k) lines)
    → py.compile (join_lines patched) (codes "<string>") ≡ none
    → Confirmed py lines first last (join_lines (slice b (suc k) patched))
made_at py lines b k first last span patched p q bounds ordered same made accepted =
    subst₂ (λ (i j : ℕ). Confirmed py lines first last (join_lines (slice i j patched))) p q
      (made-Confirmed py lines first last span patched bounds ordered
        (same ∙ ap₂ (λ (i j : ℕ). bare (slice i j lines)) (sym p) (sym q))
        (made ∙ ap₂ (λ (i j : ℕ). take i lines ++ (span ++ drop j lines)) (sym p) (sym q)) accepted)

backward_result_lem :
    (py : Python) (lines : List Text) (lineno first_indent start_idx : ℕ) (start : Text)
    (r : RangeFix)
    → backward_result py lines lineno first_indent (start_idx, start) ≡ some r
    → let b = block_begin lines (indent start) start_idx in
      if_compiles py
        (block_patch lines (indent start) first_indent b start_idx)
        (block_result lineno (indent start) first_indent b start_idx)
      ≡ some r
unfolding backward_result
backward_result_lem py lines lineno first_indent start_idx start r h =
    elim (Bool-cases (ltb first_indent (indent start))) [
      | inl deeper ↦ rw deeper at h
      | inr level ↦ absurd (none_ne_some (rw level at h))
    ]

backward_result-Confirmed :
    (py : Python) (lines : List Text) (lineno first_indent : ℕ) (above : ℕ × Text) (r : RangeFix)
    → above.0 < length lines
    → backward_result py lines lineno first_indent above ≡ some r
    → Confirmed py lines r.1 r.2 r.0
backward_result-Confirmed py lines lineno first_indent (start_idx, start) r bound h =
    let b = block_begin lines (indent start) start_idx in
    let (patched, made, accepted, same) =
      if_compiles-some py _ _ r
        (backward_result_lem py lines lineno first_indent start_idx start r h) in
    let (span, bare_same, parts) =
      block_patch_made lines (indent start) first_indent b start_idx made in
    let below = block_begin-le lines (indent start) start_idx in
    subst (λ (t : RangeFix). Confirmed py lines t.1 t.2 t.0) same
      (made_at py lines b start_idx (b + 1) (start_idx + 1) span patched (omega arith) (omega arith)
        (omega arith, omega arith) (omega arith) bare_same parts accepted)

-- The fix that is found behind the error moves lines above it, under the same guarantees.
pub backward-Confirmed :
    (py : Python) (code : Text) (e : SyntaxError) (r : RangeFix)
    → backward_search py code e ≡ some r
    → Confirmed py (splitlines code) r.1 r.2 r.0
backward-Confirmed py code e r h =
    let lines = splitlines code in
    let h' : (misaligned_line code e >>= λ t.
    line_above lines e.lineno >>= λ a. backward_result py lines e.lineno (indent t) a)
        ≡ some r =
      unfold backward_search in h in
    let (line, found, rest) =
      >>=-eq-some (misaligned_line code e)
        (λ t. line_above lines e.lineno >>= λ a. backward_result py lines e.lineno (indent t) a)
        h' in
    let (above, there, result) =
      >>=-eq-some (line_above lines e.lineno)
        (λ a. backward_result py lines e.lineno (indent line) a) rest in
    backward_result-Confirmed py lines e.lineno (indent line) above r
      (line_above_bound lines e.lineno there) result
