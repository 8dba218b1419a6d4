-- ===== src/Fixes/Writing.antt =====
-- The loop of `apply_fixes_to_file` that writes the fixes, one after another.
use githubprojectforissueide.Prelude.{
  ℕ, ◌-◌, ◌≤◌, ◌<◌, ◌≡◌, sym, ap, ◌∙◌, true, false, not, List, [], ◌∷◌, ◌++◌, take, drop, length,
  append-nil, append_assoc, length-append, length-take_of_le, arith, Bool-cases, inl, inr, All,
  All-map, select,
}
use githubprojectforissueide.Text.{Text, splitlines}
use githubprojectforissueide.Models.{Finding}
use githubprojectforissueide.Fixes.Spans.{start_line, last_line, start-le-last}
use githubprojectforissueide.Fixes.{ApplyState, fits, splice, apply_fix, apply_loop}
use githubprojectforissueide.Fixes.Order.{Separated}
use githubprojectforissueide.Fixes.Rendering.{render, splice-render}

-- What the loop over `fs` makes of the state `s`: the fixes that fit the file are written, the
-- others are passed on, and the lines are those of the original file with all fixes written at once.
pub record Written (file : List Text) (fs : List Finding) (s t : ApplyState) : Type 0 where
  pub applied : t.applied ≡ s.applied ++ select (fits (length file)) fs
  pub conflicted : t.conflicted ≡ s.conflicted ++ select (λ f. not (fits (length file) f)) fs
  pub lines : t.lines ≡ render t.applied 1 file

abbrev wrote : ApplyState → Finding → ApplyState
wrote s f = record s {
  lines = splice (start_line f) (last_line f) (splitlines f.fix) s.lines;
  applied = s.applied ++ f ∷ [];
}

abbrev skipped : ApplyState → Finding → ApplyState
skipped s f = record s { conflicted = s.conflicted ++ f ∷ [] }

apply_fix_writes :
    (s : ApplyState) (f : Finding) → fits (length s.lines) f ≡ true → apply_fix s f ≡ wrote s f
unfolding apply_fix
apply_fix_writes s f h = rw h

apply_fix_skips :
    (s : ApplyState) (f : Finding) → fits (length s.lines) f ≡ false → apply_fix s f ≡ skipped s f
unfolding apply_fix
apply_fix_skips s f h = rw h

fits_bounds : (n : ℕ) (f : Finding) → fits n f ≡ true → (0 < start_line f) × (last_line f ≤ n)
unfolding fits
fits_bounds n f h = (ground arith, ground arith)

fits_of_le : (m n : ℕ) (f : Finding) → last_line f ≤ m → last_line f ≤ n → fits m f ≡ fits n f
unfolding fits
fits_of_le m n f h k = ground (arith, start-le-last f)

length-splice :
    (s e : ℕ) (new lines : List Text) → s - 1 ≤ length lines → s - 1 ≤ length (splice s e new lines)
unfolding splice
length-splice s e new lines h = omega (
  arith,
  length-append (take (s - 1) lines) (new ++ drop e lines),
  length-take_of_le (s - 1) lines h,
)

-- Each finding ends above all that are written.
abbrev pub Above : List Finding → List Finding → Type 0
Above written fs = All (λ f. All (λ d. last_line f < start_line d) written) fs

module _ (file : List Text) where
  -- The lines written so far decide of the rest what the original file decides.
  abbrev pub FitsAlike : ApplyState → List Finding → Type 0
  FitsAlike s fs = All (λ f. fits (length s.lines) f ≡ fits (length file) f) fs

  All-snoc {ℓ κ} :
      {A : Type ℓ} (P : A → Type κ) (xs : List A) (x : A) → All P xs → P x → All P (xs ++ x ∷ [])
  All-snoc P [] x h p = (p, tt)
  All-snoc P (y ∷ ys) x h p = (h.0, All-snoc P ys x h.1 p)

  Above-snoc :
      (written : List Finding) (x : Finding) (rest : List Finding)
      → Above written rest
      → All (λ y. last_line y < start_line x) rest
      → Above (written ++ x ∷ []) rest
  Above-snoc written x [] h b = tt
  Above-snoc written x (y ∷ ys) h b = (
    All-snoc (λ d. last_line y < start_line d) written x h.0 b.0,
    Above-snoc written x ys h.1 b.1,
  )

  FitsAlike-writes :
      (s : ApplyState) (x : Finding) (rest : List Finding)
      → fits (length s.lines) x ≡ true
      → fits (length file) x ≡ true
      → All (λ y. last_line y < start_line x) rest
      → FitsAlike (wrote s x) rest
  FitsAlike-writes s x rest h k =
      let a = fits_bounds (length s.lines) x h in
      let b = fits_bounds (length file) x k in
      let grown =
        length-splice (start_line x) (last_line x) (splitlines x.fix) s.lines
          (omega (arith, start-le-last x)) in
      All-map (λ y. last_line y < start_line x)
        (λ y. fits (length (wrote s x).lines) y ≡ fits (length file) y) rest
        (λ y p.
          fits_of_le (length (wrote s x).lines) (length file) y (omega arith)
            (omega (arith, start-le-last x)))

  Written-writes :
      (s : ApplyState) (x : Finding) (rest : List Finding) {t : ApplyState}
      → fits (length file) x ≡ true
      → Written file rest (wrote s x) t
      → Written file (x ∷ rest) s t
  unfolding select
  Written-writes s x rest h w = record {
    applied = rw h (w.applied ∙ append_assoc s.applied (x ∷ []) _);
    conflicted = rw h w.conflicted;
    lines = w.lines;
  }

  Written-skips :
      (s : ApplyState) (x : Finding) (rest : List Finding) {t : ApplyState}
      → fits (length file) x ≡ false
      → Written file rest (skipped s x) t
      → Written file (x ∷ rest) s t
  unfolding select
  Written-skips s x rest h w = record {
    applied = rw h w.applied;
    conflicted = rw h (w.conflicted ∙ append_assoc s.conflicted (x ∷ []) _);
    lines = w.lines;
  }

  pub apply_loop-Written :
      (fs : List Finding) (s : ApplyState)
      → Separated fs
      → s.lines ≡ render s.applied 1 file
      → Above s.applied fs
      → FitsAlike s fs
      → Written file fs s (apply_loop s fs)
  unfolding apply_loop select
  apply_loop-Written [] s sep e a fit = record {
    applied = sym (append-nil _);
    conflicted = sym (append-nil _);
    lines = e;
  }
  apply_loop-Written (x ∷ rest) s sep e a fit = elim (Bool-cases (fits (length s.lines) x)) [
    | inl yes_fits ↦
        let here : fits (length file) x ≡ true = sym fit.0 ∙ yes_fits in
        let b = fits_bounds (length file) x here in
        let w =
          apply_loop-Written rest (wrote s x) sep.1
            (ap (splice (start_line x) (last_line x) (splitlines x.fix)) e
              ∙ splice-render s.applied x a.0 file b.0 b.1)
            (Above-snoc s.applied x rest a.1 sep.0)
            (FitsAlike-writes s x rest yes_fits here sep.0) in
        rw (apply_fix_writes s x yes_fits) (Written-writes s x rest here w)
    | inr no_fit ↦
        let w = apply_loop-Written rest (skipped s x) sep.1 e a.1 fit.1 in
        rw (apply_fix_skips s x no_fit) (Written-skips s x rest (sym fit.0 ∙ no_fit) w)
  ]
