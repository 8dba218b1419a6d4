-- ===== src/Syntax/Repaired.antt =====
-- Writing the colon fixes that `_collect_syntax_error_findings` of src/core/orchestrator.py yields.
use githubprojectforissueide.Prelude.{
  ℕ, zero, suc, ◌-◌, ◌<◌, ◌≡◌, ◌≢◌, refl, sym, ap, subst, Bool, true, false, not, ◌||◌, List, [],
  ◌∷◌, none, set, length, arith, All, if◌then◌else◌,
}
use githubprojectforissueide.Text.{Text, splitlines, join_lines, is_empty}
use githubprojectforissueide.Models.{Finding, ConfidenceTier, high, is_high}
use githubprojectforissueide.Syntax.Base.{Python, SyntaxError, is_zero}
use githubprojectforissueide.Syntax.Collect.{
  SyntaxFix, syntax_error_fix, syntax_finding, collect_loop, collect_syntax_error_findings,
}
use githubprojectforissueide.Syntax.Chosen.{syntax_error_fix-MissingColon}
use githubprojectforissueide.Syntax.Collected.{on_error_rec}
use githubprojectforissueide.Syntax.Confirmed.{line_at_bounds}

-- The text of the working lines once the fixes of the findings are written into them, in order.
pub repaired : List Text → List Finding → List Text
repaired w [] = w
repaired w (f ∷ fs) = repaired (set w (f.line - 1) f.fix) fs

line_of_colon :
    (w : List Text) (filename : Text) (e : SyntaxError) (f : SyntaxFix)
    → f.start_line ≡ e.lineno
    → 0 < e.lineno
    → (syntax_finding w filename e f).line ≡ e.lineno
unfolding syntax_finding
line_of_colon w filename e f same pos = ground arith

is_high-high : (t : ConfidenceTier) → t ≡ high → is_high t ≡ true
is_high-high t h = rw h

not_empty : (t : Text) → t ≢ [] → is_empty t ≡ false
unfolding is_empty
not_empty [] h = absurd (h refl)
not_empty (c ∷ t) h = refl

goes_on :
    (is_sure no_fix : Bool) (lineno : ℕ)
    → is_sure ≡ true
    → no_fix ≡ false
    → 0 < lineno
    → (not is_sure || (no_fix || is_zero lineno)) ≡ false
goes_on is_sure no_fix lineno h n pos = ground arith

-- A colon fix is at a line of the file, so the loop goes on behind it.
high_goes_on :
    (py : Python) (w : List Text) (e : SyntaxError)
    → let f = syntax_error_fix py (join_lines w) e in
      f.confidence ≡ high
      → (0 < e.lineno)
        × (f.start_line ≡ e.lineno)
        × ((not (is_high f.confidence) || (is_empty f.fix || is_zero e.lineno)) ≡ false)
high_goes_on py w e h =
    let (ne, start, last, colon) = syntax_error_fix-MissingColon py (join_lines w) e h in
    let pos = line_at_bounds (splitlines (join_lines w)) e.lineno colon.at_line in
    (pos.0, start, goes_on _ _ e.lineno (is_high-high _ h) (not_empty _ ne) pos.0)

abbrev IsRepaired : Python → Text → ℕ → List Text → List Finding → Type 0
IsRepaired py filename n w fs =
    All (λ (f : Finding). f.confidence ≡ high) fs
    → length fs < n
    → py.compile (join_lines (repaired w fs)) filename ≡ none

step_IsRepaired :
    (py : Python) (filename : Text) (rounds : ℕ) (w : List Text) (lineno : ℕ) (fd : Finding)
    (b : Bool) (rest : List Finding)
    → fd.line ≡ lineno
    → b ≡ false
    → IsRepaired py filename rounds (set w (lineno - 1) fd.fix) rest
    → IsRepaired py filename (suc rounds) w (fd ∷ (if b then [] else rest))
unfolding repaired
step_IsRepaired py filename rounds w lineno fd true rest same goes h highs short = cc
step_IsRepaired py filename rounds w lineno fd false rest same goes h highs short =
    let at : repaired (set w (lineno - 1) fd.fix) rest
        ≡ repaired (set w (fd.line - 1) fd.fix) rest =
      ap (λ (n : ℕ). repaired (set w (n - 1) fd.fix) rest) (sym same) in
    subst (λ t. py.compile (join_lines t) filename ≡ none) at (h highs.1 (omega arith))

collect_loop-IsRepaired :
    (py : Python) (filename : Text) (rounds : ℕ) (w : List Text)
    → IsRepaired py filename rounds w (collect_loop py filename rounds w)
unfolding collect_loop syntax_finding repaired
collect_loop-IsRepaired py filename zero w = λ highs short. absurd (omega arith)
collect_loop-IsRepaired py filename (suc rounds) w =
    on_error_rec (IsRepaired py filename (suc rounds) w) (py.compile (join_lines w) filename) _
      (λ accepted highs short. accepted)
      (λ e raised highs short.
        let f = syntax_error_fix py (join_lines w) e in
        let (pos, start, goes) = high_goes_on py w e highs.0 in
        step_IsRepaired py filename rounds w e.lineno (syntax_finding w filename e f) _ _
          (line_of_colon w filename e f start pos) goes
          (collect_loop-IsRepaired py filename rounds (set w (e.lineno - 1) f.fix)) highs short)

-- Where there are fewer than 25 findings and all are of high confidence, writing the fix of each into
-- its line, in order, leaves lines that the interpreter accepts.
pub collect_syntax_error_findings-repaired :
    (py : Python) (code filename : Text)
    → let fs = collect_syntax_error_findings py code filename in
      All (λ (f : Finding). f.confidence ≡ high) fs
      → length fs < 25
      → py.compile (join_lines (repaired (splitlines code) fs)) filename ≡ none
unfolding collect_syntax_error_findings
collect_syntax_error_findings-repaired py code filename =
    collect_loop-IsRepaired py filename 25 (splitlines code)
