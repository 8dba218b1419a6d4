-- ===== src/Analyzers/IndexGuard/OutOfBounds.antt =====
-- Where src/analyzers/index_guard_checker.py reports an index out of bounds that is certain.
use githubprojectforissueide.Prelude.{
  ℕ, zero, suc, ◌+◌, ◌-◌, ◌<◌, ◌≡◌, ◌↔◌, ◌⊎◌, ◌∙◌, inl, inr, refl, sym, subst, true, false, not,
  List, [], ◌∷◌, some, length, arith, Bool-cases, Option-cases, >>-eq-some, >>=-eq-some,
}
use githubprojectforissueide.Text.{Text}
use githubprojectforissueide.Models.{Finding}
use githubprojectforissueide.Syntax.{line_at}
use githubprojectforissueide.Analyzers.Tree.{Node, field, walk, value, slice, entries, elts}
use githubprojectforissueide.Analyzers.Shapes.{is_subscript, name_of}
use githubprojectforissueide.Analyzers.Utils.{ParentMap, owning_statement_line}
use githubprojectforissueide.Analyzers.Reports.{report, assignments, single_assignment}
use githubprojectforissueide.Analyzers.Paths.{In, Distinct}
use githubprojectforissueide.Analyzers.Once.{lines_of}
use githubprojectforissueide.Analyzers.Members.{
  IsLine, IsLine-iff, line_of_some, once_filter_map_lines, some-ne-none,
}
use githubprojectforissueide.Analyzers.Assigned.{single_assignment_from, single_assignment_of}
use githubprojectforissueide.Analyzers.IndexGuard.{
  Index, at, back, in_bounds, int_index_value, is_sequence, literal_length, bounds_finding,
  literal_out_of_bounds_findings,
}

-- The item that an index selects, from the start, or, where it is negative, from the end.
abbrev pub Selects : Index → ℕ → ℕ → Type 0
Selects (at k) len j = (j ≡ k) × (j < len)
Selects (back zero) len j = (j ≡ 0) × (j < len)
Selects (back (suc k)) len j = j + suc k ≡ len

in_bounds_from : (i : Index) (len : ℕ) → in_bounds i len ≡ true → (j : ℕ) × Selects i len j
unfolding in_bounds
in_bounds_from (at k) len h = (k, (refl, ground arith))
in_bounds_from (back zero) len h = (0, (refl, ground arith))
in_bounds_from (back (suc k)) len h = (len - suc k, ground arith)

in_bounds_of : (i : Index) (len j : ℕ) → Selects i len j → in_bounds i len ≡ true
unfolding in_bounds
in_bounds_of (at k) len j h = ground arith
in_bounds_of (back zero) len j h = ground arith
in_bounds_of (back (suc k)) len j h = ground arith

-- A literal list or tuple of `len` items, or a name to which the file has one assignment `t = v`, whatever else
-- gives it a value, with such a literal as `v`.
abbrev pub HasLength : Node → Node → ℕ → Type 0
HasLength tree n len =
    ((is_sequence n ≡ true) × (length (entries elts n) ≡ len))
    ⊎ ((t : Text) × (v : Node) × (is_sequence n ≡ false)
        × (name_of n ≡ some t)
        × (assignments tree t ≡ v ∷ [])
        × (is_sequence v ≡ true)
        × (length (entries elts v) ≡ len))

literal_length_from :
    (tree n : Node) (known : ℕ × Text)
    → literal_length tree n ≡ some known
    → HasLength tree n known.0
unfolding literal_length
literal_length_from tree n known e = elim (Bool-cases (is_sequence n)) [
  | inl here ↦ let e' = rw here at e in inl (here, cc)
  | inr other ↦
      let (t, named, e1) = >>=-eq-some (name_of n) _ (rw other at e) in
      let (v, assigned, e2) = >>=-eq-some (single_assignment tree t) _ e1 in
      let (literal, e3) = >>-eq-some (is_sequence v) _ e2 in
      inr (t, v, other, named, single_assignment_from tree t v assigned, literal, cc)
]

literal_length_of :
    (tree n : Node) (len : ℕ)
    → HasLength tree n len
    → (known : ℕ × Text) × (literal_length tree n ≡ some known) × (known.0 ≡ len)
unfolding literal_length
literal_length_of tree n len (inl (here, counted)) = elim (Option-cases (literal_length tree n)) [
  | inl e ↦ absurd (some-ne-none (rw here at e))
  | inr (known, e) ↦ let e' = rw here at e in (known, e, cc)
]
literal_length_of tree n len (inr (t, v, other, named, assigned, literal, counted)) =
    let once = single_assignment_of tree t v assigned in
    elim (Option-cases (literal_length tree n)) [
      | inl e ↦ absurd (some-ne-none (rw (other, named, once, literal) at e))
      | inr (known, e) ↦ let e' = rw (other, named, once, literal) at e in (known, e, cc)
    ]

-- An access to a literal sequence at a literal index that selects no item of it, in a statement at line `k`
-- of the file.
abbrev pub IsOutside : ParentMap → Node → List Text → ℕ → Node → Type 0
IsOutside pm tree lines k n =
    (s : Node) × (x : Node) × (len : ℕ) × (i : Index) × (is_subscript n ≡ true)
    × (field value n ≡ some s)
    × HasLength tree s len
    × (field slice n ≡ some x)
    × (int_index_value x ≡ some i)
    × ((j : ℕ) → ¬ Selects i len j)
    × (owning_statement_line pm n ≡ k)
    × IsLine lines k

statement_of :
    (pm : ParentMap) (tree : Node) (lines : List Text) (k : ℕ) (n : Node)
    → IsOutside pm tree lines k n
    → owning_statement_line pm n ≡ k
statement_of pm tree lines k n (s, x, len, i, a, b, c, d, e, f, at_line, inside) = at_line

not-in_bounds : (i : Index) (len : ℕ) → not (in_bounds i len) ≡ true → (j : ℕ) → ¬ Selects i len j
not-in_bounds i len h j s = let inside = in_bounds_of i len j s in ground arith

none_selected : (i : Index) (len : ℕ) → ((j : ℕ) → ¬ Selects i len j) → not (in_bounds i len) ≡ true
none_selected i len h = elim (Bool-cases (in_bounds i len)) [
  | inl inside ↦ let (j, s) = in_bounds_from i len inside in absurd (h j s)
  | inr outside ↦ rw outside refl
]

bounds_finding_from :
    (pm : ParentMap) (tree : Node) (filename : Text) (lines : List Text) (n : Node) (f : Finding)
    → bounds_finding pm tree filename lines n ≡ some f
    → IsOutside pm tree lines f.line n
unfolding bounds_finding report
bounds_finding_from pm tree filename lines n f e =
    let (subscripted, e1) = >>-eq-some (is_subscript n) _ e in
    let (s, sequence, e2) = >>=-eq-some (field value n) _ e1 in
    let (known, counted, e3) = >>=-eq-some (literal_length tree s) _ e2 in
    let (x, index_node, e4) = >>=-eq-some (field slice n) _ e3 in
    let (i, index, e5) = >>=-eq-some (int_index_value x) _ e4 in
    let (outside, e6) = >>-eq-some (not (in_bounds i known.0)) _ e5 in
    let (line, there, e7) = >>=-eq-some (line_at lines (owning_statement_line pm n)) _ e6 in
    let at_line : owning_statement_line pm n ≡ f.line = line_of_some e7 in
    (
      s,
      x,
      known.0,
      i,
      subscripted,
      sequence,
      literal_length_from tree s known counted,
      index_node,
      index,
      not-in_bounds i known.0 outside,
      at_line,
      (IsLine-iff lines f.line).0 (line, subst (λ k. line_at lines k ≡ some line) at_line there),
    )

bounds_finding_of :
    (pm : ParentMap) (tree : Node) (filename : Text) (lines : List Text) (n : Node) (k : ℕ)
    → IsOutside pm tree lines k n
    → (f : Finding) × (bounds_finding pm tree filename lines n ≡ some f) × (f.line ≡ k)
unfolding bounds_finding report
bounds_finding_of pm tree filename lines n k
      (s, x, len, i, subscripted, sequence, counted, index_node, index, outside, at_line, inside) =
    let (line, there) = (IsLine-iff lines k).1 inside in
    let (known, found, same_length) = literal_length_of tree s len counted in
    let beyond : not (in_bounds i known.0) ≡ true =
      none_selected i known.0 (subst (λ m. (j : ℕ) → ¬ Selects i m j) (sym same_length) outside) in
    elim (Option-cases (bounds_finding pm tree filename lines n)) [
      | inl e ↦ absurd (
          some-ne-none
            (rw (subscripted, sequence, found, index_node, index, beyond, at_line, there) at e))
      | inr (f, e) ↦
          let spec = bounds_finding_from pm tree filename lines n f e in
          (f, e, sym (statement_of pm tree lines f.line n spec) ∙ at_line)
    ]

-- The lines at which an index out of bounds is reported as certain are exactly the lines of the file at which
-- the statement around a subscript starts that is of a literal list or tuple, or of a name to which the file
-- has exactly one plain assignment, of such a literal, whether or not the name gets another value in another
-- way, such as by `+=`, at a literal index that selects no item of the literal, from the start or from the end;
-- each of them is reported once.
pub literal_out_of_bounds_findings_lines :
    (pm : ParentMap) (tree : Node) (filename : Text) (lines : List Text)
    → Distinct (lines_of (literal_out_of_bounds_findings pm tree filename lines))
      × ((k : ℕ)
          → In k (lines_of (literal_out_of_bounds_findings pm tree filename lines))
            ↔ ((n : Node) × In n (walk tree) × IsOutside pm tree lines k n))
unfolding literal_out_of_bounds_findings
literal_out_of_bounds_findings_lines pm tree filename lines =
    once_filter_map_lines (IsOutside pm tree lines) (bounds_finding pm tree filename lines)
      (walk tree) (bounds_finding_from pm tree filename lines)
      (bounds_finding_of pm tree filename lines)
