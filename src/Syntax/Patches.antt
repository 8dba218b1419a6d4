-- ===== src/Syntax/Patches.antt =====
-- Lines of a file that the indentation fixes of src/core/orchestrator.py replace: what they keep.
use githubprojectforissueide.Prelude.{
  ℕ, zero, suc, ◌-◌, ◌≤◌, ◌≡◌, refl, sym, ap, ◌∙◌, true, false, List, [], ◌∷◌, ◌++◌, some, map,
  take, drop, length, length-append, length-map, length-drop, length-take_of_le, take-append-drop,
  take_append_left, drop_append_left, append_assoc, min, arith, leb, leb→le, Bool-cases, inl, inr,
  ◌>>=◌, >>=-eq-some,
}
use mathlib.Core.List.{map-append}
use githubprojectforissueide.Text.{Text, lstrip, pad, is_blank, indent}
use githubprojectforissueide.Syntax.Lines.{slice, indent_line, reindent}
use githubprojectforissueide.Syntax.Misaligned.{moved, shift_line, shift_lines}
use githubprojectforissueide.Syntax.Backward.{shift_block}

lstrip-pad : (n : ℕ) (line : Text) → lstrip (pad n line) ≡ lstrip line
unfolding lstrip pad
lstrip-pad zero line = refl
lstrip-pad (suc n) line = lstrip-pad n line

lstrip_idem : (line : Text) → lstrip (lstrip line) ≡ lstrip line
unfolding lstrip
lstrip_idem [] = refl
lstrip_idem (c ∷ s) = ground (arith, lstrip_idem s)

lstrip-reindent : (n : ℕ) (line : Text) → lstrip (reindent n line) ≡ lstrip line
unfolding reindent
lstrip-reindent n line = lstrip-pad n (lstrip line) ∙ lstrip_idem line

lstrip-indent_line : (n : ℕ) (line : Text) → lstrip (indent_line n line) ≡ lstrip line
unfolding indent_line
lstrip-indent_line n line = ground (arith, lstrip-pad n line)

-- The code of lines, without their indentation.
abbrev pub bare : List Text → List Text
bare = map lstrip

pub bare-indent_lines : (n : ℕ) (lines : List Text) → bare (map (indent_line n) lines) ≡ bare lines
bare-indent_lines n [] = refl
bare-indent_lines n (line ∷ lines) = cc (lstrip-indent_line n line, bare-indent_lines n lines)

kept_alike : (line line' : Text) → some line ≡ some line' → lstrip line' ≡ lstrip line
kept_alike line line' h = cc

lstrip-shift_line :
    (a b : ℕ) (line : Text) {line' : Text}
    → shift_line a b line ≡ some line'
    → lstrip line' ≡ lstrip line
unfolding shift_line
lstrip-shift_line a b line h = elim (Bool-cases (is_blank line)) [
  | inl blank ↦ kept_alike line _ (rw blank at h)
  | inr code ↦
      let (n, m, e) =
        >>=-eq-some (moved a b (indent line)) (λ n. some (reindent n line)) (rw code at h) in
      cc (e, lstrip-reindent n line)
]

pub bare-shift_lines :
    (a b : ℕ) (lines : List Text) {out : List Text}
    → shift_lines a b lines ≡ some out
    → bare out ≡ bare lines
unfolding shift_lines
bare-shift_lines a b [] h = cc
bare-shift_lines a b (line ∷ lines) h =
    let (line', first, rest) =
      >>=-eq-some (shift_line a b line) (λ l. shift_lines a b lines >>= λ ls. some (l ∷ ls)) h in
    let (lines', shifted, e) = >>=-eq-some (shift_lines a b lines) (λ ls. some (line' ∷ ls)) rest in
    cc (e, lstrip-shift_line a b line first, bare-shift_lines a b lines shifted)

pub bare-shift_block :
    (a b : ℕ) (lines : List Text) {out : List Text}
    → shift_block a b lines ≡ some out
    → bare out ≡ bare lines
unfolding shift_block
bare-shift_block a b [] h = cc
bare-shift_block a b (line ∷ lines) h =
    let (n, m, rest) =
      >>=-eq-some (moved a b (indent line))
        (λ n. shift_block a b lines >>= λ ls. some (reindent n line ∷ ls)) h in
    let (lines', shifted, e) =
      >>=-eq-some (shift_block a b lines) (λ ls. some (reindent n line ∷ ls)) rest in
    cc (e, lstrip-reindent n line, bare-shift_block a b lines shifted)

drop-nil {ℓ} : {A : Type ℓ} (n : ℕ) → drop {A = A} n [] ≡ []
drop-nil zero = refl
drop-nil (suc n) = refl

drop-drop {ℓ} : {A : Type ℓ} (s e : ℕ) (xs : List A) → s ≤ e → drop (e - s) (drop s xs) ≡ drop e xs
drop-drop zero e xs h = ap (λ k. drop k xs) (omega arith)
drop-drop (suc s) zero xs h = absurd (omega arith)
drop-drop (suc s) (suc e) [] h = drop-nil (suc e - suc s)
drop-drop (suc s) (suc e) (x ∷ xs) h =
    let same : suc e - suc s ≡ e - s = omega arith in
    ap (λ k. drop k (drop s xs)) same ∙ drop-drop s e xs (omega arith)

drop_all {ℓ} : {A : Type ℓ} (n : ℕ) (xs : List A) → length xs ≤ n → drop n xs ≡ []
drop_all zero [] h = refl
drop_all zero (x ∷ xs) h = absurd (omega arith)
drop_all (suc n) [] h = refl
drop_all (suc n) (x ∷ xs) h = drop_all n xs (omega arith)

length-take {ℓ} : {A : Type ℓ} (n : ℕ) (xs : List A) → length (take n xs) ≡ min n (length xs)
length-take zero xs = omega arith
length-take (suc n) [] = omega arith
length-take (suc n) (x ∷ xs) = omega (arith, length-take n xs)

-- The lines from index `s` on, before `e`, replaced by others with the same code.
module _ (lines : List Text) (s e : ℕ) (span : List Text) (inside : s ≤ length lines)
    (ordered : s ≤ e) (same : bare span ≡ bare (slice s e lines)) where
  abbrev pub patch : List Text
  patch = take s lines ++ (span ++ drop e lines)

  parts : take s lines ++ (slice s e lines ++ drop e lines) ≡ lines
  parts =
      ap (λ l. take s lines ++ (slice s e lines ++ l)) (sym (drop-drop s e lines ordered))
      ∙ (ap (λ l. take s lines ++ l) (take-append-drop (e - s) (drop s lines))
          ∙ take-append-drop s lines)

  pub take-patch : take s patch ≡ take s lines
  take-patch =
      ap (λ n. take n patch) (sym (length-take_of_le s lines inside))
      ∙ take_append_left (take s lines) _

  length-span : length span ≡ min (e - s) (length lines - s)
  length-span = omega (
    arith,
    ap length same,
    length-map lstrip span,
    length-map lstrip (slice s e lines),
    length-take (e - s) (drop s lines),
    length-drop s lines,
  )

  head_end : leb e (length lines) ≡ true → e ≡ length (take s lines ++ span)
  head_end h = omega (
    arith,
    leb→le e (length lines) h,
    length-append (take s lines) span,
    length-take_of_le s lines inside,
    length-span,
  )

  patch_end : leb e (length lines) ≡ false → length patch ≤ e
  patch_end h =
      let behind : length lines ≤ e = ground arith in
      omega (
        arith,
        length-append (take s lines) (span ++ drop e lines),
        length-append span (drop e lines),
        length-take_of_le s lines inside,
        length-span,
        length-drop e lines,
      )

  pub drop-patch : drop e patch ≡ drop e lines
  drop-patch = elim (Bool-cases (leb e (length lines))) [
    | inl within ↦
        ap (drop e) (sym (append_assoc (take s lines) span (drop e lines)))
        ∙ (ap (λ n. drop n ((take s lines ++ span) ++ drop e lines)) (head_end within)
            ∙ drop_append_left (take s lines ++ span) (drop e lines))
    | inr past ↦ drop_all e patch (patch_end past) ∙ sym (drop_all e lines (ground arith))
  ]

  pub bare-patch : bare patch ≡ bare lines
  bare-patch =
      map-append lstrip (take s lines) (span ++ drop e lines)
      ∙ (ap (λ l. bare (take s lines) ++ l)
            (map-append lstrip span (drop e lines)
              ∙ ap (λ l. l ++ bare (drop e lines)) same
              ∙ sym (map-append lstrip (slice s e lines) (drop e lines)))
          ∙ (sym (map-append lstrip (take s lines) (slice s e lines ++ drop e lines))
              ∙ ap bare parts))
