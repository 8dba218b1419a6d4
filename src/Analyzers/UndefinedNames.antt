-- ===== src/Analyzers/UndefinedNames.antt =====
-- src/analyzers/undefined_name_checker.py. What pyflakes reports is a parameter: the line, the name, if the
-- report has arguments, and the text of each undefined name.
pub mod Innermost
use githubprojectforissueide.Prelude.{
  ℕ, ◌-◌, Bool, true, false, not, ◌&&◌, ◌||◌, List, [], ◌∷◌, ◌++◌, Option, none, some, map,
  if◌then◌else◌, ltb, leb,
}
use githubprojectforissueide.Text.{Text, codes, text_eq, splitlines}
use githubprojectforissueide.Models.{Finding, critical}
use githubprojectforissueide.Syntax.{line_at}
use githubprojectforissueide.Analyzers.Tree.{
  Node, Kind, kind, walk, name, same, body, Children, node, end, child, absent,
}
use githubprojectforissueide.Analyzers.Shapes.{holds, is_function, is_scope_boundary}
use githubprojectforissueide.Analyzers.Utils.{line_of, end_line_of}
use githubprojectforissueide.Analyzers.Reports.{report, checked}

pub record UndefinedName : Type 0 where
  pub lineno : ℕ
  pub undefined : Option Text
  pub text : Text

-- Whether a function spans a line.
unfoldable pub spans : ℕ → Node → Bool
unfolding is_function line_of end_line_of
spans lineno n = is_function n && leb (line_of n) lineno && leb lineno (end_line_of n)

-- `best` gives way to a function that starts below it.
unfoldable pub innermost : ℕ → Option Node → List Node → Option Node
unfolding spans line_of
innermost lineno best [] = best
innermost lineno best (n ∷ ns) =
    innermost lineno
      (if spans lineno n && elim best [ none ↦ true | some b ↦ ltb (line_of b) (line_of n) ]
        then some n
        else best)
      ns

unfoldable pub enclosing_function_at : Node → ℕ → Option Node
unfolding innermost walk
enclosing_function_at tree lineno = innermost lineno none (walk tree)

abbrev kind_stores : Text → Kind → Bool
kind_stores t (name id is_stored) = is_stored && text_eq id t
kind_stores t _ = false

-- `visit(node, False)`, for the children of a node.
unfoldable mutual
  unfolding kind text_eq is_scope_boundary

  pub assigns_in : Text → Node → Bool
  assigns_in t (node p k cs) = kind_stores t k || assigns_in_any t cs

  pub assigns_in_any : Text → Children → Bool
  assigns_in_any t end = false
  assigns_in_any t (child f n cs) =
      (not (is_scope_boundary n) && assigns_in t n) || assigns_in_any t cs
  assigns_in_any t (absent f cs) = assigns_in_any t cs

unfoldable pub is_assigned_in_own_scope : Node → Text → Bool
unfolding assigns_in
is_assigned_in_own_scope n t = assigns_in t n

unfoldable pub exception_note : Node → UndefinedName → Text
unfolding enclosing_function_at is_assigned_in_own_scope
exception_note tree m =
    let t : Text = elim m.undefined [ none ↦ [] | some u ↦ u ] in
    if holds (λ f. is_assigned_in_own_scope f t) (enclosing_function_at tree m.lineno)
    then codes "raises UnboundLocalError: '"
      ++ t
      ++ codes "' is assigned later in this same function, which makes it a local variable for the "
      ++ codes
          "function's entire body -- referencing it before that assignment actually runs fails, even "
      ++ codes "though the name isn't truly undefined."
    else codes "raises NameError the moment this code actually runs."

-- `lines[lineno - 1] if 0 < lineno <= len(lines) else ""`
unfoldable pub reported_line : List Text → ℕ → Text
unfolding line_at
reported_line lines lineno = elim (line_at lines lineno) [ none ↦ [] | some line ↦ line ]

unfoldable pub undefined_finding : Node → Text → List Text → UndefinedName → Finding
unfolding reported_line exception_note report
undefined_finding tree filename lines m =
    report (codes "undefined_name_checker") filename m.lineno 0 (codes "runtime") critical
      (m.text ++ codes " — " ++ exception_note tree m) (reported_line lines m.lineno) []

unfoldable pub detect_undefined_names :
    (Text → Option Node) → (Node → Text → List UndefinedName) → Text → Text → List Finding
unfolding checked splitlines undefined_finding
detect_undefined_names parse messages code filename =
    checked parse code
      (λ tree. map (undefined_finding tree filename (splitlines code)) (messages tree filename))
