-- ===== src/Chunker/Words.antt =====
-- The words of text that is put together from lines.
use githubprojectforissueide.Prelude.{
  ℕ, ◌≡◌, refl, sym, ap, ◌∙◌, subst, true, false, List, [], ◌∷◌, ◌++◌, arith, Bool-cases, inl, inr,
  All, ◌⊎◌,
}
use githubprojectforissueide.Text.{Text, is_space, is_empty, strip, splitlines, join_lines}
use githubprojectforissueide.Text.Words.{words, starts_word, onto_word}
use githubprojectforissueide.Text.Stripped.{
  Blank, words-Blank, words-strip, splitlines-Blank, strip-Blank,
}
use githubprojectforissueide.Analyzers.Paths.{In, In-append_left, In-append_right}

List-cases : (s : Text) → (s ≡ []) ⊎ ((c : ℕ) × (t : Text) × (s ≡ c ∷ t))
List-cases [] = inl refl
List-cases (c ∷ t) = inr (c, t, refl)

onto_word_cons :
    (c : ℕ) (ws : List Text) → (v : Text) × (vs : List Text) × (onto_word c ws ≡ v ∷ vs)
unfolding onto_word
onto_word_cons c [] = (c ∷ [], [], refl)
onto_word_cons c (w ∷ ws) = (c ∷ w, ws, refl)

-- A text that starts inside a word has one.
words_cons : (s : Text) → starts_word s ≡ true → (v : Text) × (vs : List Text) × (words s ≡ v ∷ vs)
unfolding words starts_word
words_cons [] h = cc
words_cons (c ∷ s) h = elim (Bool-cases (is_space c)) [
  | inl space ↦ absurd (ground (arith, space))
  | inr letter ↦ elim (Bool-cases (starts_word s)) [
    | inl goes_on ↦ rw (letter, goes_on) (onto_word_cons c (words s))
    | inr ends ↦ rw (letter, ends) (c ∷ [], words s, refl)
  ]
]

onto_word_append :
    (c : ℕ) (s : Text) (ws : List Text)
    → starts_word s ≡ true
    → onto_word c (words s ++ ws) ≡ onto_word c (words s) ++ ws
unfolding onto_word
onto_word_append c s ws h = let (v, vs, e) = words_cons s h in rw e refl

starts_word-append_line : (s t : Text) → starts_word (s ++ 10 ∷ t) ≡ starts_word s
unfolding starts_word is_space
starts_word-append_line [] t = refl
starts_word-append_line (c ∷ s) t = refl

-- A newline ends a word.
words-append_line : (s t : Text) → words (s ++ 10 ∷ t) ≡ words s ++ words t
unfolding words is_space
words-append_line [] t = refl
words-append_line (c ∷ s) t = elim (Bool-cases (is_space c)) [
  | inl space ↦ rw space (words-append_line s t)
  | inr letter ↦ elim (Bool-cases (starts_word s)) [
    | inl goes_on ↦
        rw (letter, starts_word-append_line s t, goes_on, words-append_line s t)
          (onto_word_append c s (words t) goes_on)
    | inr ends ↦ rw (letter, starts_word-append_line s t, ends, words-append_line s t) refl
  ]
]

-- The words of each line are words of the lines together.
pub words-join_lines :
    (lines : List Text) (line w : Text)
    → In line lines
    → In w (words line)
    → In w (words (join_lines lines))
unfolding join_lines
words-join_lines [] line w m there = absurd m
words-join_lines (l ∷ []) line w (inl e) there = subst (λ t. In w (words t)) e there
words-join_lines (l ∷ []) line w (inr m) there = absurd m
words-join_lines (l ∷ k ∷ lines) line w (inl e) there =
    subst (In w) (sym (words-append_line l (join_lines (k ∷ lines))))
      (In-append_left w (words l) _ (subst (λ t. In w (words t)) e there))
words-join_lines (l ∷ k ∷ lines) line w (inr m) there =
    subst (In w) (sym (words-append_line l (join_lines (k ∷ lines))))
      (In-append_right w (words l) _ (words-join_lines (k ∷ lines) line w m there))

-- What has a word is not empty when it is stripped.
pub strip-word : (s w : Text) → In w (words s) → is_empty (strip s) ≡ false
unfolding is_empty words
strip-word s w m = elim (List-cases (strip s)) [
  | inl gone ↦ absurd (subst (In w) (sym (words-strip s) ∙ ap words gone) m)
  | inr (c, t, e) ↦ rw e refl
]

All-In : (P : Text → Type 0) (ls : List Text) (l : Text) → All P ls → In l ls → P l
All-In P [] l p m = absurd m
All-In P (k ∷ ls) l p (inl e) = subst P (sym e) (p.0)
All-In P (k ∷ ls) l p (inr m) = All-In P ls l p.1 m

-- A file with a word in a line is not empty when it is stripped.
pub word-splitlines :
    (content line w : Text)
    → In line (splitlines content)
    → In w (words line)
    → is_empty (strip content) ≡ false
unfolding is_empty
word-splitlines content line w m there = elim (List-cases (strip content)) [
  | inl gone ↦
      let blank = All-In Blank _ line (splitlines-Blank content (strip-Blank content gone)) m in
      absurd (subst (In w) (words-Blank line blank) there)
  | inr (c, t, e) ↦ rw e refl
]
