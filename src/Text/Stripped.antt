-- ===== src/Text/Stripped.antt =====
-- White space around a text, its words and its lines.
use githubprojectforissueide.Prelude.{
  ◌≡◌, refl, sym, ap, ◌∙◌, true, [], ◌∷◌, ◌++◌, reverse, arith, Bool-cases, inl, inr, ℕ, Bool,
  false, List, All, ◌==◌, ◌&&◌, subst,
}
use githubprojectforissueide.Text.Lines.{is_break, cons_head, lines_from}
use mathlib.Core.List.{reverse-append, reverse-reverse}
use githubprojectforissueide.Text.{
  Text, is_space, lstrip, rstrip, strip, starts_with, contains, splitlines,
}
use githubprojectforissueide.Text.Words.{words, normalized, starts_word}

-- Text of white space alone.
abbrev pub Blank : Text → Type 0
Blank [] = Unit
Blank (c ∷ s) = (is_space c ≡ true) × Blank s

Blank-append : (s t : Text) → Blank s → Blank t → Blank (s ++ t)
Blank-append [] t p q = q
Blank-append (c ∷ s) t p q = (p.0, Blank-append s t p.1 q)

Blank-reverse : (s : Text) → Blank s → Blank (reverse s)
Blank-reverse [] p = tt
Blank-reverse (c ∷ s) p =
    rw (reverse-append (c ∷ []) s)
      (Blank-append (reverse s) (c ∷ []) (Blank-reverse s p.1) (p.0, tt))

-- A text is white space and what `lstrip` leaves of it.
lstrip_split : (s : Text) → (b : Text) × Blank b × (s ≡ b ++ lstrip s)
unfolding lstrip
lstrip_split [] = ([], tt, refl)
lstrip_split (c ∷ s) = elim (Bool-cases (is_space c)) [
  | inl space ↦
      let (b, blank, e) = lstrip_split s in (c ∷ b, (space, blank), rw space (ap (◌∷◌ c) e))
  | inr letter ↦ ([], tt, rw letter refl)
]

rstrip_split : (s : Text) → (b : Text) × Blank b × (s ≡ rstrip s ++ b)
unfolding rstrip
rstrip_split s =
    let (b, blank, e) = lstrip_split (reverse s) in
    (
      reverse b,
      Blank-reverse b blank,
      sym (reverse-reverse s) ∙ ap reverse e ∙ reverse-append b (lstrip (reverse s)),
    )

pub words-Blank : (b : Text) → Blank b → words b ≡ []
unfolding words
words-Blank [] p = refl
words-Blank (c ∷ b) p = rw (p.0) (words-Blank b p.1)

words-lstrip : (s : Text) → words (lstrip s) ≡ words s
unfolding words lstrip
words-lstrip [] = refl
words-lstrip (c ∷ s) = elim (Bool-cases (is_space c)) [
  | inl space ↦ rw space (words-lstrip s)
  | inr letter ↦ let kept : lstrip (c ∷ s) ≡ c ∷ s = rw letter refl in ap words kept
]

starts_word-append-Blank : (s b : Text) → Blank b → starts_word (s ++ b) ≡ starts_word s
unfolding starts_word
starts_word-append-Blank [] [] p = refl
starts_word-append-Blank [] (c ∷ b) p = rw (p.0) refl
starts_word-append-Blank (c ∷ s) b p = refl

words-append-Blank : (s b : Text) → Blank b → words (s ++ b) ≡ words s
unfolding words
words-append-Blank [] b p = words-Blank b p
words-append-Blank (c ∷ s) b p = rw (words-append-Blank s b p, starts_word-append-Blank s b p) refl

pub words-strip : (s : Text) → words (strip s) ≡ words s
unfolding strip
words-strip s =
    let (b, blank, e) = rstrip_split (lstrip s) in
    sym (words-append-Blank (rstrip (lstrip s)) b blank) ∙ sym (ap words e) ∙ words-lstrip s

pub normalized-strip : (s : Text) → normalized (strip s) ≡ normalized s
unfolding normalized
normalized-strip s = rw (words-strip s) refl

starts_with_self : (s : Text) → starts_with s s ≡ true
unfolding starts_with
starts_with_self [] = refl
starts_with_self (c ∷ s) = ground (arith, starts_with_self s)

pub contains_self : (s : Text) → contains s s ≡ true
unfolding contains
contains_self [] = starts_with_self []
contains_self (c ∷ s) = ground (arith, starts_with_self (c ∷ s))

cons_head-Blank :
    (c : ℕ) (ls : List Text) → is_space c ≡ true → All Blank ls → All Blank (cons_head c ls)
unfolding cons_head
cons_head-Blank c [] space p = ((space, tt), tt)
cons_head-Blank c (l ∷ ls) space p = ((space, p.0), p.1)

lines_from-Blank : (after_cr : Bool) (s : Text) → Blank s → All Blank (lines_from after_cr s)
unfolding lines_from
lines_from-Blank after_cr [] p = tt
lines_from-Blank after_cr (c ∷ s) p =
    let rest = lines_from-Blank (c == 13) s p.1 in
    elim (Bool-cases (after_cr && c == 10)) [
      | inl joined ↦ rw joined rest
      | inr other ↦ elim (Bool-cases (is_break c)) [
        | inl ends ↦ rw (other, ends) (tt, rest)
        | inr inside ↦ rw (other, inside) (cons_head-Blank c _ p.0 rest)
      ]
    ]

-- The lines of white space are white space.
pub splitlines-Blank : (s : Text) → Blank s → All Blank (splitlines s)
unfolding splitlines
splitlines-Blank s p = lines_from-Blank false s p

-- What is empty when it is stripped is white space.
pub strip-Blank : (s : Text) → strip s ≡ [] → Blank s
unfolding strip
strip-Blank s e =
    let (b, blank, p) = lstrip_split s in
    let (d, blank', q) = rstrip_split (lstrip s) in
    subst Blank (sym (p ∙ ap (◌++◌ b) (q ∙ ap (λ t. t ++ d) e))) (Blank-append b d blank blank')
