-- ===== src/Syntax/Collected.antt =====
-- What `_collect_syntax_error_findings` of src/core/orchestrator.py promises.
use githubprojectforissueide.Prelude.{
  ℕ, zero, suc, ◌-◌, ◌≤◌, ◌<◌, ◌≡◌, ◌≢◌, refl, sym, ap, ◌∙◌, ◌↔◌, Bool, true, false, not, ◌||◌,
  List, [], ◌∷◌, Option, none, some, set, length, arith, All, inl, inr, Option-cases, if◌then◌else◌,
}
use githubprojectforissueide.Text.{Text, codes, splitlines, join_lines, is_empty}
use githubprojectforissueide.Models.{Finding, low, critical, is_high}
use githubprojectforissueide.Syntax.Base.{Python, SyntaxError, is_zero, missing_colon_fix}
use githubprojectforissueide.Syntax.Indent.{BlockFix, missing_indent_fix}
use githubprojectforissueide.Syntax.Misaligned.{misaligned_indent_fix}
use githubprojectforissueide.Syntax.Backward.{RangeFix, misaligned_indent_backward_fix}
use githubprojectforissueide.Syntax.Collect.{
  choose_fix, SyntaxFix, syntax_error_fix, syntax_finding, collect_loop, on_error,
  collect_syntax_error_findings,
}

cons_ne_nil : {A : Type 0} {a : A} {xs : List A} → (a ∷ xs) ≢ []
cons_ne_nil h = cc

-- What one round leaves to the next ones.
rest_of : Python → Text → ℕ → List Text → SyntaxError → List Finding
rest_of py filename rounds w e =
    let f = syntax_error_fix py (join_lines w) e in
    if not (is_high f.confidence) || (is_empty f.fix || is_zero e.lineno)
    then []
    else collect_loop py filename rounds (set w (e.lineno - 1) f.fix)

on_error_lem :
    (o : Option SyntaxError) (k : SyntaxError → List Finding) {o' : Option SyntaxError}
    → o ≡ o'
    → on_error o k ≡ on_error o' k
on_error_lem o k h = ap (λ x. on_error x k) h

pub on_error_rec :
    (P : List Finding → Type 0) (o : Option SyntaxError) (k : SyntaxError → List Finding)
    → (o ≡ none → P [])
    → ((e : SyntaxError) → o ≡ some e → P (k e))
    → P (on_error o k)
on_error_rec P none k p f = p refl
on_error_rec P (some e) k p f = f e refl

if_rec :
    (P : List Finding → Type 0) (b : Bool) (xs : List Finding)
    → P []
    → P xs
    → P (if b then [] else xs)
if_rec P true xs p q = p
if_rec P false xs p q = q

loop_accepted :
    (py : Python) (filename : Text) (rounds : ℕ) (w : List Text)
    → py.compile (join_lines w) filename ≡ none
    → collect_loop py filename rounds w ≡ []
unfolding collect_loop
loop_accepted py filename zero w h = refl
loop_accepted py filename (suc rounds) w h = on_error_lem _ _ h

loop_refused :
    (py : Python) (filename : Text) (rounds : ℕ) (w : List Text) (e : SyntaxError)
    → py.compile (join_lines w) filename ≡ some e
    → collect_loop py filename (suc rounds) w
      ≡ syntax_finding w filename e (syntax_error_fix py (join_lines w) e)
        ∷ rest_of py filename rounds w e
unfolding collect_loop rest_of
loop_refused py filename rounds w e h = on_error_lem _ _ h

-- A syntax finding of the file.
pub record IsSyntaxFinding (filename : Text) (f : Finding) : Type 0 where
  pub in_file : f.file ≡ filename
  pub blocks : f.severity ≡ critical
  pub is_syntax : f.category ≡ codes "syntax"
  pub by_orchestrator : f.source ≡ codes "orchestrator"
  pub not_low : f.confidence ≢ low
  pub placed : 0 < f.line

choose_fix_tier :
    (lineno : ℕ) (colon : Text) (i m : BlockFix) (b : RangeFix)
    → (choose_fix lineno colon i m b).confidence ≢ low
unfolding choose_fix
choose_fix_tier lineno colon i m b h = ground arith

syntax_finding-IsSyntaxFinding :
    (w : List Text) (filename : Text) (e : SyntaxError) (f : SyntaxFix)
    → f.confidence ≢ low
    → IsSyntaxFinding filename (syntax_finding w filename e f)
unfolding syntax_finding
syntax_finding-IsSyntaxFinding w filename e f tier = record {
  in_file = refl;
  blocks = refl;
  is_syntax = refl;
  by_orchestrator = refl;
  not_low = tier;
  placed = ground arith;
}

made_IsSyntaxFinding :
    (py : Python) (w : List Text) (filename : Text) (e : SyntaxError)
    → IsSyntaxFinding filename (syntax_finding w filename e (syntax_error_fix py (join_lines w) e))
unfolding syntax_error_fix
made_IsSyntaxFinding py w filename e =
    syntax_finding-IsSyntaxFinding w filename e (syntax_error_fix py (join_lines w) e) (
      choose_fix_tier e.lineno (missing_colon_fix (join_lines w) e)
        (missing_indent_fix py (join_lines w) e) (misaligned_indent_fix py (join_lines w) e)
        (misaligned_indent_backward_fix py (join_lines w) e))

abbrev Capped : Text → ℕ → List Finding → Type 0
Capped filename n fs = (length fs ≤ n) × All (IsSyntaxFinding filename) fs

collect_loop-Capped :
    (py : Python) (filename : Text) (rounds : ℕ) (w : List Text)
    → Capped filename rounds (collect_loop py filename rounds w)
unfolding collect_loop
collect_loop-Capped py filename zero w = (omega arith, tt)
collect_loop-Capped py filename (suc rounds) w =
    on_error_rec (Capped filename (suc rounds)) (py.compile (join_lines w) filename) _
      (λ accepted. (omega arith, tt))
      (λ e raised.
        let f = syntax_error_fix py (join_lines w) e in
        let (short, later) =
          if_rec (Capped filename rounds) _ _ (omega arith, tt)
            (collect_loop-Capped py filename rounds (set w (e.lineno - 1) f.fix)) in
        (omega arith, (made_IsSyntaxFinding py w filename e, later)))

-- There is a finding exactly if the interpreter rejects the lines of the file, joined by newlines.
pub collect_syntax_error_findings-nil_iff :
    (py : Python) (code filename : Text)
    → (collect_syntax_error_findings py code filename ≡ [])
      ↔ (py.compile (join_lines (splitlines code)) filename ≡ none)
unfolding collect_syntax_error_findings
collect_syntax_error_findings-nil_iff py code filename = (
  λ empty. elim (Option-cases (py.compile (join_lines (splitlines code)) filename)) [
    | inl accepted ↦ accepted
    | inr (e, raised) ↦
        absurd (cons_ne_nil (sym (loop_refused py filename 24 (splitlines code) e raised) ∙ empty))
  ],
  loop_accepted py filename 25 (splitlines code),
)

-- At most 25 findings, each a critical syntax finding of the orchestrator in the file, at a line from
-- 1 on, of high or medium confidence.
pub collect_syntax_error_findings-Capped :
    (py : Python) (code filename : Text)
    → let fs = collect_syntax_error_findings py code filename in
      (length fs ≤ 25) × All (IsSyntaxFinding filename) fs
unfolding collect_syntax_error_findings
collect_syntax_error_findings-Capped py code filename =
    collect_loop-Capped py filename 25 (splitlines code)
