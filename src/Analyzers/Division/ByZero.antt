-- ===== src/Analyzers/Division/ByZero.antt =====
-- Where src/analyzers/division_guard_checker.py reports a division by zero that is certain.
use githubprojectforissueide.Prelude.{
  ℕ, ◌≡◌, ◌↔◌, ◌⊎◌, ◌∙◌, inl, inr, sym, subst, true, List, [], ◌∷◌, some, Bool-cases, Option-cases,
  >>-eq-some, >>=-eq-some,
}
use githubprojectforissueide.Text.{Text}
use githubprojectforissueide.Models.{Finding}
use githubprojectforissueide.Syntax.{line_at}
use githubprojectforissueide.Analyzers.Tree.{Node, field, walk, right}
use githubprojectforissueide.Analyzers.Shapes.{is_division, name_of}
use githubprojectforissueide.Analyzers.Utils.{ParentMap, owning_statement_line}
use githubprojectforissueide.Analyzers.Reports.{report, assignments, single_assignment}
use githubprojectforissueide.Analyzers.Paths.{In, Distinct}
use githubprojectforissueide.Analyzers.Once.{by_side, lines_of}
use githubprojectforissueide.Analyzers.Members.{
  IsLine, IsLine-iff, line_of_some, once_filter_map_lines, some-ne-none,
}
use githubprojectforissueide.Analyzers.Assigned.{single_assignment_from, single_assignment_of}
use githubprojectforissueide.Analyzers.Division.{
  is_zero_literal, zero_divisor, zero_finding, literal_zero_division_findings,
}

-- A literal zero, or a name to which the file has one assignment `t = v`, whatever else gives it a value, with
-- a literal zero as `v`.
abbrev pub IsKnownZero : Node → Node → Type 0
IsKnownZero tree divisor =
    (is_zero_literal divisor ≡ true)
    ⊎ ((t : Text) × (v : Node) × (name_of divisor ≡ some t)
        × (assignments tree t ≡ v ∷ [])
        × (is_zero_literal v ≡ true))

zero_divisor_from :
    (tree divisor : Node) (s : Text) → zero_divisor tree divisor ≡ some s → IsKnownZero tree divisor
unfolding zero_divisor
zero_divisor_from tree divisor s e = elim (Bool-cases (is_zero_literal divisor)) [
  | inl zero_there ↦ inl zero_there
  | inr other ↦
      let (t, named, e1) = >>=-eq-some (name_of divisor) _ (rw other at e) in
      let (v, assigned, e2) = >>=-eq-some (single_assignment tree t) _ e1 in
      let (is_zero_there, _) = >>-eq-some (is_zero_literal v) _ e2 in
      inr (t, v, named, single_assignment_from tree t v assigned, is_zero_there)
]

zero_divisor_of :
    (tree divisor : Node)
    → IsKnownZero tree divisor
    → (s : Text) × (zero_divisor tree divisor ≡ some s)
unfolding zero_divisor
zero_divisor_of tree divisor h = elim (Option-cases (zero_divisor tree divisor)) [
  | inr described ↦ described
  | inl e ↦ elim (Bool-cases (is_zero_literal divisor)) [
    | inl there ↦ absurd (some-ne-none (rw there at e))
    | inr other ↦
        by_side (λ z. cc)
          (λ (t, v, named, assigned, z).
            absurd
              (some-ne-none (rw (other, named, single_assignment_of tree t v assigned, z) at e)))
          h
  ]
]

-- A division by what is known to be zero, in a statement at line `k` of the file.
abbrev pub DividesByZero : ParentMap → Node → List Text → ℕ → Node → Type 0
DividesByZero pm tree lines k n =
    (d : Node) × (is_division n ≡ true)
    × (field right n ≡ some d)
    × IsKnownZero tree d
    × (owning_statement_line pm n ≡ k)
    × IsLine lines k

zero_finding_from :
    (pm : ParentMap) (tree : Node) (filename : Text) (lines : List Text) (n : Node) (f : Finding)
    → zero_finding pm tree filename lines n ≡ some f
    → DividesByZero pm tree lines f.line n
unfolding zero_finding report
zero_finding_from pm tree filename lines n f e =
    let (division, e1) = >>-eq-some (is_division n) _ e in
    let (d, divisor, e2) = >>=-eq-some (field right n) _ e1 in
    let (s, known, e3) = >>=-eq-some (zero_divisor tree d) _ e2 in
    let (line, there, e4) = >>=-eq-some (line_at lines (owning_statement_line pm n)) _ e3 in
    let at : owning_statement_line pm n ≡ f.line = line_of_some e4 in
    (
      d,
      division,
      divisor,
      zero_divisor_from tree d s known,
      at,
      (IsLine-iff lines f.line).0 (line, subst (λ k. line_at lines k ≡ some line) at there),
    )

zero_finding_of :
    (pm : ParentMap) (tree : Node) (filename : Text) (lines : List Text) (n : Node) (k : ℕ)
    → DividesByZero pm tree lines k n
    → (f : Finding) × (zero_finding pm tree filename lines n ≡ some f) × (f.line ≡ k)
unfolding zero_finding report
zero_finding_of pm tree filename lines n k (d, division, divisor, known, at, inside) =
    let (line, there) = (IsLine-iff lines k).1 inside in
    let (s, described) = zero_divisor_of tree d known in
    elim (Option-cases (zero_finding pm tree filename lines n)) [
      | inl e ↦ absurd (some-ne-none (rw (division, divisor, described, at, there) at e))
      | inr (f, e) ↦
          let (d', p, q, r, at', is_line) = zero_finding_from pm tree filename lines n f e in
          (f, e, sym at' ∙ at)
    ]

-- The lines at which a division by zero is reported as certain are exactly the lines of the file at which the
-- statement around a division starts whose divisor is a literal zero, or a name to which the file has exactly
-- one plain assignment, of a literal zero, whether or not the name gets another value in another way, such as
-- by `+=`; each of them is reported once.
pub literal_zero_division_findings_lines :
    (pm : ParentMap) (tree : Node) (filename : Text) (lines : List Text)
    → Distinct (lines_of (literal_zero_division_findings pm tree filename lines))
      × ((k : ℕ)
          → In k (lines_of (literal_zero_division_findings pm tree filename lines))
            ↔ ((n : Node) × In n (walk tree) × DividesByZero pm tree lines k n))
unfolding literal_zero_division_findings
literal_zero_division_findings_lines pm tree filename lines =
    once_filter_map_lines (DividesByZero pm tree lines) (zero_finding pm tree filename lines)
      (walk tree) (zero_finding_from pm tree filename lines)
      (zero_finding_of pm tree filename lines)
