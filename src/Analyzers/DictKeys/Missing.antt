-- ===== src/Analyzers/DictKeys/Missing.antt =====
-- Where src/analyzers/dict_key_checker.py reports a missing key that is certain.
use githubprojectforissueide.Prelude.{
  ℕ, ◌≡◌, ◌↔◌, ◌⊎◌, ◌∙◌, inl, inr, refl, sym, ap, subst, true, false, not, List, [], ◌∷◌, some,
  arith, Bool-cases, Option-cases, >>-eq-some, >>=-eq-some,
}
use githubprojectforissueide.Text.{Text}
use githubprojectforissueide.Models.{Finding}
use githubprojectforissueide.Syntax.{line_at}
use githubprojectforissueide.Analyzers.Tree.{Node, field, walk, value, slice}
use githubprojectforissueide.Analyzers.Shapes.{is_subscript, is_dict, name_of, string_of, one_of}
use githubprojectforissueide.Analyzers.Utils.{ParentMap, owning_statement_line}
use githubprojectforissueide.Analyzers.Reports.{report, assignments, single_assignment}
use githubprojectforissueide.Analyzers.Paths.{In, Distinct}
use githubprojectforissueide.Analyzers.Once.{lines_of}
use githubprojectforissueide.Analyzers.Members.{
  IsLine, IsLine-iff, line_of_some, once_filter_map_lines, some-ne-none,
}
use githubprojectforissueide.Analyzers.Names.{one_of_to, one_of_from}
use githubprojectforissueide.Analyzers.Assigned.{single_assignment_from, single_assignment_of}
use githubprojectforissueide.Analyzers.DictKeys.{
  dict_literal_keys, known_keys, missing_key_finding, missing_key_findings,
}

-- A literal dictionary whose keys are the texts `ks`, or a name to which the file has one assignment `t = v`,
-- whatever else gives it a value, with such a literal as `v`.
abbrev pub HasKeys : Node → Node → List Text → Type 0
HasKeys tree n ks =
    ((is_dict n ≡ true) × (dict_literal_keys n ≡ some ks))
    ⊎ ((t : Text) × (v : Node) × (is_dict n ≡ false)
        × (name_of n ≡ some t)
        × (assignments tree t ≡ v ∷ [])
        × (is_dict v ≡ true)
        × (dict_literal_keys v ≡ some ks))

keys_first : {x y : List Text × Text} → some x ≡ some y → x.0 ≡ y.0
keys_first h = cc

known_keys_from :
    (tree n : Node) (known : List Text × Text)
    → known_keys tree n ≡ some known
    → HasKeys tree n known.0
unfolding known_keys
known_keys_from tree n known e = elim (Bool-cases (is_dict n)) [
  | inl here ↦
      let (ks, own, e1) = >>=-eq-some (dict_literal_keys n) _ (rw here at e) in
      inl (here, own ∙ ap some (keys_first e1))
  | inr other ↦
      let (t, named, e1) = >>=-eq-some (name_of n) _ (rw other at e) in
      let (v, assigned, e2) = >>=-eq-some (single_assignment tree t) _ e1 in
      let (literal, e3) = >>-eq-some (is_dict v) _ e2 in
      let (ks, own, e4) = >>=-eq-some (dict_literal_keys v) _ e3 in
      inr (
        t,
        v,
        other,
        named,
        single_assignment_from tree t v assigned,
        literal,
        own ∙ ap some (keys_first e4),
      )
]

known_keys_of :
    (tree n : Node) (ks : List Text)
    → HasKeys tree n ks
    → (known : List Text × Text) × (known_keys tree n ≡ some known) × (known.0 ≡ ks)
unfolding known_keys
known_keys_of tree n ks (inl (here, own)) = elim (Option-cases (known_keys tree n)) [
  | inl e ↦ absurd (some-ne-none (rw (here, own) at e))
  | inr (known, e) ↦ let e' = rw (here, own) at e in (known, e, sym (keys_first e'))
]
known_keys_of tree n ks (inr (t, v, other, named, assigned, literal, own)) =
    let once = single_assignment_of tree t v assigned in
    elim (Option-cases (known_keys tree n)) [
      | inl e ↦ absurd (some-ne-none (rw (other, named, once, literal, own) at e))
      | inr (known, e) ↦
          let e' = rw (other, named, once, literal, own) at e in (known, e, sym (keys_first e'))
    ]

-- An access to a literal dictionary by a literal key that it has not, in a statement at line `k` of the
-- file.
abbrev pub MissesKey : ParentMap → Node → List Text → ℕ → Node → Type 0
MissesKey pm tree lines k n =
    (d : Node) × (x : Node) × (ks : List Text) × (key : Text) × (is_subscript n ≡ true)
    × (field value n ≡ some d)
    × HasKeys tree d ks
    × (field slice n ≡ some x)
    × (string_of x ≡ some key)
    × (¬ In key ks)
    × (owning_statement_line pm n ≡ k)
    × IsLine lines k

statement_of :
    (pm : ParentMap) (tree : Node) (lines : List Text) (k : ℕ) (n : Node)
    → MissesKey pm tree lines k n
    → owning_statement_line pm n ≡ k
statement_of pm tree lines k n (d, x, ks, key, a, b, c, e, f, g, at_line, inside) = at_line

absent_from : (key : Text) (ks : List Text) → not (one_of ks key) ≡ true → ¬ In key ks
absent_from key ks h m = let there = one_of_from key ks m in ground arith

absent_of : (key : Text) (ks : List Text) → ¬ In key ks → not (one_of ks key) ≡ true
absent_of key ks h = elim (Bool-cases (one_of ks key)) [
  | inl there ↦ absurd (h (one_of_to key ks there))
  | inr gone ↦ rw gone refl
]

missing_key_finding_from :
    (repr : Text → Text) (pm : ParentMap) (tree : Node) (filename : Text) (lines : List Text)
    (n : Node) (f : Finding)
    → missing_key_finding repr pm tree filename lines n ≡ some f
    → MissesKey pm tree lines f.line n
unfolding missing_key_finding report
missing_key_finding_from repr pm tree filename lines n f e =
    let (subscripted, e1) = >>-eq-some (is_subscript n) _ e in
    let (d, dictionary, e2) = >>=-eq-some (field value n) _ e1 in
    let (known, found, e3) = >>=-eq-some (known_keys tree d) _ e2 in
    let (x, key_node, e4) = >>=-eq-some (field slice n) _ e3 in
    let (key, text, e5) = >>=-eq-some (string_of x) _ e4 in
    let (gone, e6) = >>-eq-some (not (one_of known.0 key)) _ e5 in
    let (line, there, e7) = >>=-eq-some (line_at lines (owning_statement_line pm n)) _ e6 in
    let at_line : owning_statement_line pm n ≡ f.line = line_of_some e7 in
    (
      d,
      x,
      known.0,
      key,
      subscripted,
      dictionary,
      known_keys_from tree d known found,
      key_node,
      text,
      absent_from key known.0 gone,
      at_line,
      (IsLine-iff lines f.line).0 (line, subst (λ k. line_at lines k ≡ some line) at_line there),
    )

missing_key_finding_of :
    (repr : Text → Text) (pm : ParentMap) (tree : Node) (filename : Text) (lines : List Text)
    (n : Node) (k : ℕ)
    → MissesKey pm tree lines k n
    → (f : Finding) × (missing_key_finding repr pm tree filename lines n ≡ some f) × (f.line ≡ k)
unfolding missing_key_finding report
missing_key_finding_of repr pm tree filename lines n k
      (d, x, ks, key, subscripted, dictionary, has, key_node, text, gone, at_line, inside) =
    let (line, there) = (IsLine-iff lines k).1 inside in
    let (known, found, same_keys) = known_keys_of tree d ks has in
    let absent_there : not (one_of known.0 key) ≡ true =
      absent_of key known.0 (subst (λ l. ¬ In key l) (sym same_keys) gone) in
    elim (Option-cases (missing_key_finding repr pm tree filename lines n)) [
      | inl e ↦ absurd (
          some-ne-none (
            rw (subscripted, dictionary, found, key_node, text, absent_there, at_line, there) at e))
      | inr (f, e) ↦
          let spec = missing_key_finding_from repr pm tree filename lines n f e in
          (f, e, sym (statement_of pm tree lines f.line n spec) ∙ at_line)
    ]

-- The lines at which a missing key is reported as certain are exactly the lines of the file at which the
-- statement around a subscript starts, be it read, assigned to or deleted, that is of a literal dictionary all
-- whose keys are literal texts, or of a name to which the file has exactly one plain assignment, of such a
-- literal, whether or not keys are added to it or the name gets another value in another way, by a literal text
-- that is none of the keys of the literal; each of them is reported once.
pub missing_key_findings_lines :
    (repr : Text → Text) (pm : ParentMap) (tree : Node) (filename : Text) (lines : List Text)
    → Distinct (lines_of (missing_key_findings repr pm tree filename lines))
      × ((k : ℕ)
          → In k (lines_of (missing_key_findings repr pm tree filename lines))
            ↔ ((n : Node) × In n (walk tree) × MissesKey pm tree lines k n))
unfolding missing_key_findings
missing_key_findings_lines repr pm tree filename lines =
    once_filter_map_lines (MissesKey pm tree lines)
      (missing_key_finding repr pm tree filename lines) (walk tree)
      (missing_key_finding_from repr pm tree filename lines)
      (missing_key_finding_of repr pm tree filename lines)
