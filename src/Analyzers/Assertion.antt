-- ===== src/Analyzers/Assertion.antt =====
-- src/analyzers/assertion_checker.py
use githubprojectforissueide.Prelude.{
  ◌==◌, Bool, true, false, not, ◌&&◌, ◌||◌, List, [], ◌∷◌, ◌++◌, Option, none, some, ◌>>=◌, ◌>>◌,
  guard,
}
use githubprojectforissueide.Text.{Text, codes, splitlines, is_empty}
use githubprojectforissueide.Models.{Finding, critical}
use githubprojectforissueide.Syntax.{line_at}
use githubprojectforissueide.Analyzers.Tree.{
  Node, Constant, field, nodes, entries, walk, string, integer, float, complex, boolean, bytes,
  none_value, ellipsis, test, keys, elts,
}
use githubprojectforissueide.Analyzers.Shapes.{
  filter_map, constant_of, is_assert, is_dict, is_list, is_tuple,
}
use githubprojectforissueide.Analyzers.Utils.{line_of}
use githubprojectforissueide.Analyzers.Reports.{report, checked}

abbrev is_falsy : Constant → Bool
is_falsy (string s) = is_empty s
is_falsy (integer n) = n == 0
is_falsy (float z) = z
is_falsy (complex z) = z
is_falsy (boolean b) = not b
is_falsy (bytes []) = true
is_falsy (bytes (b ∷ bs)) = false
is_falsy none_value = true
is_falsy ellipsis = false

-- `len(node.elts) == 0`
abbrev no_entries {ℓ} : {A : Type ℓ} → List A → Bool
no_entries [] = true
no_entries (a ∷ more) = false

unfoldable pub is_always_falsy_literal : Node → Bool
unfolding constant_of is_list is_dict is_tuple nodes entries is_empty
is_always_falsy_literal n = elim (constant_of n) [
  | some c ↦ is_falsy c
  | none ↦
      (is_list n && no_entries (entries elts n))
      || (is_dict n && no_entries (entries keys n))
      || (is_tuple n && no_entries (entries elts n))
]

unfoldable pub assertion_finding : Text → List Text → Node → Option Finding
unfolding is_assert field is_always_falsy_literal line_of line_at report
assertion_finding filename lines n = do
  guard (is_assert n)
  condition ← field test n
  guard (is_always_falsy_literal condition)
  line ← line_at lines (line_of n)
  some (
      report (codes "assertion_checker") filename (line_of n) 0 (codes "runtime") critical
        (codes "This assert's condition is a literal that's always falsy "
          ++ codes
              "— guaranteed AssertionError every time this line runs, not just a possible one.")
        line [])

unfoldable pub detect_guaranteed_assertion_failures :
    (Text → Option Node) → Text → Text → List Finding
unfolding checked filter_map walk splitlines assertion_finding
detect_guaranteed_assertion_failures parse code filename =
    checked parse code
      (λ tree. filter_map (assertion_finding filename (splitlines code)) (walk tree))
