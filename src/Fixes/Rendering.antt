-- ===== src/Fixes/Rendering.antt =====
-- All fixes written at once, with every line number that of the original file.
use githubprojectforissueide.Prelude.{
  ℕ, zero, suc, ◌+◌, ◌-◌, ◌≤◌, ◌<◌, ◌≡◌, refl, sym, ap, Bool, true, false, ◌&&◌, List, [], ◌∷◌,
  ◌++◌, take, drop, length, Option, none, some, arith, leb, if◌then◌else◌, All, All-map, ◌==◌,
}
use githubprojectforissueide.Text.{Text, splitlines}
use githubprojectforissueide.Models.{Finding}
use githubprojectforissueide.Fixes.Spans.{start_line, last_line, start-le-last}
use githubprojectforissueide.Fixes.{splice}

abbrev pub covers : Finding → ℕ → Bool
covers f i = leb (start_line f) i && leb i (last_line f)

-- A finding whose range has line `i`.
unfoldable pub covering : List Finding → ℕ → Option Finding
covering [] i = none
covering (f ∷ fs) i = if covers f i then some f else covering fs i

-- What stands for line `i`: the fix, at the first line of its range, and nothing at the others;
-- the line itself if no range has it.
unfoldable pub replacement : List Finding → ℕ → Text → List Text
unfolding covering
replacement fs i line = elim (covering fs i) [
  | none ↦ line ∷ []
  | some f ↦ if i == start_line f then splitlines f.fix else []
]

-- The lines from number `i` on, each replaced on its own.
unfoldable pub render : List Finding → ℕ → List Text → List Text
unfolding replacement
render fs i [] = []
render fs i (line ∷ lines) = replacement fs i line ++ render fs (suc i) lines

covering-none : (i : ℕ) (fs : List Finding) → All (λ d. i < start_line d) fs → covering fs i ≡ none
unfolding covering
covering-none i [] h = refl
covering-none i (d ∷ fs) h = ground (arith, covering-none i fs h.1)

covering-snoc_covers :
    (i : ℕ) (fs : List Finding) (x : Finding)
    → All (λ d. i < start_line d) fs
    → covers x i ≡ true
    → covering (fs ++ x ∷ []) i ≡ some x
unfolding covering
covering-snoc_covers i [] x h c = ground arith
covering-snoc_covers i (d ∷ fs) x h c = ground (arith, covering-snoc_covers i fs x h.1)

covering-snoc_misses :
    (i : ℕ) (fs : List Finding) (x : Finding)
    → covers x i ≡ false
    → covering (fs ++ x ∷ []) i ≡ covering fs i
unfolding covering
covering-snoc_misses i [] x c = ground arith
covering-snoc_misses i (d ∷ fs) x c = ground (arith, covering-snoc_misses i fs x)

replacement_untouched :
    (i : ℕ) (fs : List Finding) (line : Text)
    → All (λ d. i < start_line d) fs
    → replacement fs i line ≡ line ∷ []
unfolding replacement
replacement_untouched i fs line h = rw (covering-none i fs h, replacement)

replacement-snoc_misses :
    (i : ℕ) (fs : List Finding) (x : Finding) (line : Text)
    → covers x i ≡ false
    → replacement (fs ++ x ∷ []) i line ≡ replacement fs i line
unfolding replacement
replacement-snoc_misses i fs x line c = rw (covering-snoc_misses i fs x c, replacement)

replacement-snoc_covers :
    (i : ℕ) (fs : List Finding) (x : Finding) (line : Text)
    → All (λ d. i < start_line d) fs
    → covers x i ≡ true
    → replacement (fs ++ x ∷ []) i line ≡ (if i == start_line x then splitlines x.fix else [])
unfolding replacement
replacement-snoc_covers i fs x line h c = rw (covering-snoc_covers i fs x h c, replacement)

render_nil : (fs : List Finding) (i : ℕ) → render fs i [] ≡ []
unfolding render
render_nil fs i = refl

render_cons :
    (fs : List Finding) (i : ℕ) (line : Text) (lines : List Text)
    → render fs i (line ∷ lines) ≡ replacement fs i line ++ render fs (suc i) lines
unfolding render
render_cons fs i line lines = refl

-- No fix leaves the file as it is.
pub render-nil : (i : ℕ) (lines : List Text) → render [] i lines ≡ lines
unfolding render covering
render-nil i [] = refl
render-nil i (line ∷ lines) = ap (◌∷◌ line) (render-nil (suc i) lines)

-- One more fix, above all the others.
module _ (fs : List Finding) (x : Finding) (above : All (λ d. last_line x < start_line d) fs) where
  ahead : (i : ℕ) → i ≤ last_line x → All (λ d. i < start_line d) fs
  ahead i h =
      All-map (λ d. last_line x < start_line d) (λ d. i < start_line d) fs (λ d p. omega arith)
        above

  behind_first : (i : ℕ) → start_line x < i → (i == start_line x) ≡ false
  behind_first i h = ground arith

  first_of_range : (i : ℕ) → i ≡ start_line x → (i == start_line x) ≡ true
  first_of_range i h = ground arith

  render-snoc_after :
      (i : ℕ) (lines : List Text)
      → last_line x < i
      → render (fs ++ x ∷ []) i lines ≡ render fs i lines
  render-snoc_after i [] h = simp render_nil
  render-snoc_after i (line ∷ lines) h = simp render_cons (
      rw (
        replacement-snoc_misses i fs x line (ground arith),
        render-snoc_after (suc i) lines (omega arith),
      ))

  render-snoc_inside :
      (k i : ℕ) (lines : List Text)
      → start_line x < i
      → i + k ≡ suc (last_line x)
      → render (fs ++ x ∷ []) i lines ≡ drop k (render fs i lines)
  render-snoc_inside zero i lines s e = render-snoc_after i lines (omega arith)
  render-snoc_inside (suc k) i [] s e = simp render_nil
  render-snoc_inside (suc k) i (line ∷ lines) s e = simp render_cons (
      rw
        (
          replacement-snoc_covers i fs x line (ahead i (omega arith)) (ground arith),
          replacement_untouched i fs line (ahead i (omega arith)),
        )
        (rw (behind_first i (omega arith))
          (render-snoc_inside k (suc i) lines (omega arith) (omega arith))))

  render-snoc_before :
      (k e i : ℕ) (lines : List Text)
      → i + k ≡ start_line x
      → i + e ≡ suc (last_line x)
      → k < length lines
      → render (fs ++ x ∷ []) i lines
        ≡ take k (render fs i lines) ++ (splitlines x.fix ++ drop e (render fs i lines))
  render-snoc_before k e i [] p q h = absurd (omega arith)
  render-snoc_before k zero i lines p q h = absurd (omega (arith, start-le-last x))
  render-snoc_before zero (suc e) i (line ∷ lines) p q h = simp render_cons (
      rw
        (
          replacement-snoc_covers i fs x line (ahead i (omega arith))
              (ground (arith, start-le-last x)),
          replacement_untouched i fs line (ahead i (omega arith)),
        )
        (rw (first_of_range i (omega arith)) (
          ap (◌++◌ (splitlines x.fix))
            (render-snoc_inside e (suc i) lines (omega arith) (omega arith)))))
  render-snoc_before (suc k) (suc e) i (line ∷ lines) p q h = simp render_cons (
      rw
        (
          replacement-snoc_misses i fs x line (ground arith),
          replacement_untouched i fs line (ahead i (omega (arith, start-le-last x))),
        )
        (ap (◌∷◌ line)
          (render-snoc_before k e (suc i) lines (omega arith) (omega arith) (omega arith))))

  -- To write the fix of `x` into the file with the fixes below it written is to write all at once.
  pub splice-render :
      (lines : List Text)
      → 0 < start_line x
      → last_line x ≤ length lines
      → splice (start_line x) (last_line x) (splitlines x.fix) (render fs 1 lines)
        ≡ render (fs ++ x ∷ []) 1 lines
  unfolding splice
  splice-render lines p h = sym (
      render-snoc_before (start_line x - 1) (last_line x) 1 lines (omega arith) (omega arith)
        (omega (arith, start-le-last x)))
