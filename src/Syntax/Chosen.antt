-- ===== src/Syntax/Chosen.antt =====
-- What `_syntax_error_fix` of src/core/orchestrator.py promises of the fix that it returns.
use githubprojectforissueide.Prelude.{
  ℕ, ◌≡◌, ◌≢◌, refl, sym, subst, true, false, [], ◌∷◌, ◌++◌, Option, none, some, Bool-cases, inl,
  inr,
}
use githubprojectforissueide.Text.{
  Text, codes, splitlines, text_eq, text_eq→eq, contains, rstrip, ends_with,
}
use githubprojectforissueide.Models.{high, medium}
use githubprojectforissueide.Syntax.Base.{
  Python, SyntaxError, line_at, is_zero, with_colon, missing_colon_fix,
}
use githubprojectforissueide.Syntax.Indent.{
  BlockFix, or_no_fix, missing_indent_search, missing_indent_fix,
}
use githubprojectforissueide.Syntax.Misaligned.{misaligned_indent_search, misaligned_indent_fix}
use githubprojectforissueide.Syntax.Backward.{
  RangeFix, or_no_range, backward_search, misaligned_indent_backward_fix,
}
use githubprojectforissueide.Syntax.Collect.{choose_fix, syntax_error_fix}
use githubprojectforissueide.Syntax.Confirmed.{
  Confirmed, missing_indent-Confirmed, misaligned-Confirmed,
}
use githubprojectforissueide.Syntax.Above.{backward-Confirmed}

-- What holds of each fix that is not empty holds of a chosen one of medium confidence.
choose_fix_medium :
    (P : ℕ → ℕ → Text → Type 0) (lineno : ℕ) (colon : Text) (i m : BlockFix) (b : RangeFix)
    → (i.0 ≢ [] → P lineno i.1 i.0)
    → (m.0 ≢ [] → P lineno m.1 m.0)
    → (b.0 ≢ [] → P b.1 b.2 b.0)
    → (choose_fix lineno colon i m b).confidence ≡ medium
    → (choose_fix lineno colon i m b).fix ≢ []
    → let f = choose_fix lineno colon i m b in P f.start_line f.end_line f.fix
unfolding choose_fix
choose_fix_medium P lineno (c ∷ s) i m b hi hm hb med ne = cc
choose_fix_medium P lineno [] (c ∷ s, last, reason) m b hi hm hb med ne = hi ne
choose_fix_medium P lineno [] ([], last, reason) (c ∷ s, last', reason') b hi hm hb med ne = hm ne
choose_fix_medium P lineno [] ([], last, reason) ([], last', reason')
      (c ∷ s, first, last'', reason'') hi hm hb med ne =
    hb ne
choose_fix_medium P lineno [] ([], last, reason) ([], last', reason') ([], first, last'', reason'')
      hi hm hb med ne =
    absurd (ne refl)

found_block :
    (P : ℕ → Text → Type 0) (search : Option BlockFix)
    → ((r : BlockFix) → search ≡ some r → P r.1 r.0)
    → (or_no_fix search).0 ≢ []
    → P (or_no_fix search).1 (or_no_fix search).0
found_block P none f ne = absurd (ne refl)
found_block P (some r) f ne = f r refl

found_range :
    (P : ℕ → ℕ → Text → Type 0) (search : Option RangeFix)
    → ((r : RangeFix) → search ≡ some r → P r.1 r.2 r.0)
    → let r = or_no_range search in r.0 ≢ [] → P r.1 r.2 r.0
found_range P none f ne = absurd (ne refl)
found_range P (some r) f ne = f r refl

-- A fix of medium confidence that is not empty has been confirmed by the interpreter, and changes
-- only white space at the start of lines in its range.
pub syntax_error_fix-Confirmed :
    (py : Python) (code : Text) (e : SyntaxError)
    → let f = syntax_error_fix py code e in
      f.confidence ≡ medium
      → f.fix ≢ []
      → Confirmed py (splitlines code) f.start_line f.end_line f.fix
unfolding syntax_error_fix missing_indent_fix misaligned_indent_fix misaligned_indent_backward_fix
syntax_error_fix-Confirmed py code e =
    choose_fix_medium (Confirmed py (splitlines code)) e.lineno (missing_colon_fix code e)
      (missing_indent_fix py code e) (misaligned_indent_fix py code e)
      (misaligned_indent_backward_fix py code e)
      (found_block (Confirmed py (splitlines code) e.lineno) (missing_indent_search py code e)
        (missing_indent-Confirmed py code e))
      (found_block (Confirmed py (splitlines code) e.lineno) (misaligned_indent_search py code e)
        (misaligned-Confirmed py code e))
      (found_range (Confirmed py (splitlines code)) (backward_search py code e)
        (backward-Confirmed py code e))

-- What a colon fix rests on: the interpreter's own message, at a line of the file that has no comment
-- and does not end in a colon already; the fix is that line with a colon.
pub record MissingColon (code : Text) (e : SyntaxError) (fix : Text) : Type 0 where
  pub line : Text
  pub expected : e.msg ≡ codes "expected ':'"
  pub at_line : line_at (splitlines code) e.lineno ≡ some line
  pub no_comment : contains (codes "#") line ≡ false
  pub no_colon : ends_with (codes ":") (rstrip line) ≡ false
  pub written : fix ≡ rstrip line ++ codes ":"

colon_at_line :
    (code : Text) (e : SyntaxError) (found : Option Text)
    → line_at (splitlines code) e.lineno ≡ found
    → text_eq e.msg (codes "expected ':'") ≡ true
    → with_colon found ≢ []
    → MissingColon code e (with_colon found)
unfolding with_colon
colon_at_line code e none at says ne = absurd (ne refl)
colon_at_line code e (some line) at says ne = elim (Bool-cases (contains (codes "#") line)) [
  | inl comment ↦ absurd (ne (rw comment))
  | inr clean ↦ elim (Bool-cases (ends_with (codes ":") (rstrip line))) [
    | inl colon ↦ absurd (ne (rw (clean, colon)))
    | inr bare ↦ record {
      line = line;
      expected = text_eq→eq e.msg (codes "expected ':'") says;
      at_line = at;
      no_comment = clean;
      no_colon = bare;
      written = rw (clean, bare);
    }
  ]
]

-- Both tests before the line is looked up are passed where there is a fix.
missing_colon_fix_lem :
    (code : Text) (e : SyntaxError)
    → missing_colon_fix code e ≢ []
    → (text_eq e.msg (codes "expected ':'") ≡ true)
      × (missing_colon_fix code e ≡ with_colon (line_at (splitlines code) e.lineno))
unfolding missing_colon_fix
missing_colon_fix_lem code e ne = elim (Bool-cases (text_eq e.msg (codes "expected ':'"))) [
  | inl says ↦ elim (Bool-cases (is_zero e.lineno)) [
    | inl none_at ↦ absurd (ne (rw (says, none_at)))
    | inr numbered ↦ (says, rw (says, numbered))
  ]
  | inr other ↦ absurd (ne (rw other))
]

missing_colon_fix-MissingColon :
    (code : Text) (e : SyntaxError)
    → missing_colon_fix code e ≢ []
    → MissingColon code e (missing_colon_fix code e)
missing_colon_fix-MissingColon code e ne =
    let (says, same) = missing_colon_fix_lem code e ne in
    subst (MissingColon code e) (sym same) (
      colon_at_line code e (line_at (splitlines code) e.lineno) refl says
        (subst (λ t. t ≢ []) same ne))

choose_fix_high :
    (lineno : ℕ) (colon : Text) (i m : BlockFix) (b : RangeFix)
    → let f = choose_fix lineno colon i m b in
      f.confidence ≡ high
      → (colon ≢ []) × (f.fix ≡ colon) × (f.start_line ≡ lineno) × (f.end_line ≡ 0)
unfolding choose_fix
choose_fix_high lineno (c ∷ s) i m b h = (λ p. cc, refl, refl, refl)
choose_fix_high lineno [] (c ∷ s, last, reason) m b h = cc
choose_fix_high lineno [] ([], last, reason) (c ∷ s, last', reason') b h = cc
choose_fix_high lineno [] ([], last, reason) ([], last', reason') (c ∷ s, first, last'', reason'')
      h =
    cc
choose_fix_high lineno [] ([], last, reason) ([], last', reason') ([], first, last'', reason'') h =
    cc

-- A fix of high confidence is never empty, stands at the line of the error, and adds the colon that
-- the interpreter expects to that line of the file, which has no comment and no colon at its end.
pub syntax_error_fix-MissingColon :
    (py : Python) (code : Text) (e : SyntaxError)
    → let f = syntax_error_fix py code e in
      f.confidence ≡ high
      → (f.fix ≢ []) × (f.start_line ≡ e.lineno) × (f.end_line ≡ 0) × MissingColon code e f.fix
unfolding syntax_error_fix
syntax_error_fix-MissingColon py code e h =
    let (ne, same, first, last) =
      choose_fix_high e.lineno (missing_colon_fix code e) (missing_indent_fix py code e)
        (misaligned_indent_fix py code e) (misaligned_indent_backward_fix py code e) h in
    (
      subst (λ t. t ≢ []) (sym same) ne,
      first,
      last,
      subst (MissingColon code e) (sym same) (missing_colon_fix-MissingColon code e ne),
    )
