-- ===== src/Analyzers/TypeMismatch.antt =====
-- src/analyzers/type_mismatch_checker.py
use githubprojectforissueide.Prelude.{
  Bool, true, false, not, ◌&&◌, ◌||◌, List, [], ◌∷◌, ◌++◌, Option, none, some, if◌then◌else◌, ◌>>=◌,
  ◌>>◌, guard,
}
use githubprojectforissueide.Text.{Text, codes, text_eq, splitlines}
use githubprojectforissueide.Models.{Finding, critical}
use githubprojectforissueide.Syntax.{line_at}
use githubprojectforissueide.Analyzers.Tree.{
  Node, Kind, Constant, kind, field, walk, dict_display, set_display, list_display, tuple_display,
  constant, string, integer, float, boolean, bytes, left, right, set_display,
}
use githubprojectforissueide.Analyzers.Shapes.{one_of, filter_map, name_of, is_addition}
use githubprojectforissueide.Analyzers.Utils.{line_of}
use githubprojectforissueide.Analyzers.Reports.{report, single_assignment, checked}

abbrev constant_category : Constant → Option Text
constant_category (boolean b) = some (codes "numeric")
constant_category (integer n) = some (codes "numeric")
constant_category (float z) = some (codes "numeric")
constant_category (string s) = some (codes "string")
constant_category (bytes b) = some (codes "bytes")
constant_category _ = none

abbrev kind_category : Kind → Option Text
kind_category (constant c) = constant_category c
kind_category list_display = some (codes "list")
kind_category tuple_display = some (codes "tuple")
kind_category dict_display = some (codes "dict")
kind_category set_display = some (codes "set")
kind_category _ = none

unfoldable pub literal_category : Node → Option Text
unfolding kind
literal_category n = kind_category (kind n)

unfoldable pub incompatible : Text → Text → Bool
unfolding one_of text_eq
incompatible l r =
    let never_addable = codes "dict" ∷ codes "set" ∷ [] in
    if one_of never_addable l || one_of never_addable r
    then true
    else if text_eq l (codes "numeric") && text_eq r (codes "numeric")
    then false
    else not (text_eq l r)

-- A category, and how it is described.
unfoldable pub resolve : Node → Node → Option (Text × Text)
unfolding literal_category name_of single_assignment
resolve tree n = elim (literal_category n) [
  | some c ↦ some (c, c)
  | none ↦ do
    t ← name_of n
    v ← single_assignment tree t
    c ← literal_category v
    some (c, codes "'" ++ t ++ codes "'")
]

unfoldable pub describe : Text → Text → Text
unfolding text_eq
describe desc category =
    if text_eq desc category then desc else desc ++ codes " (" ++ category ++ codes ")"

unfoldable pub mismatch_finding : Node → Text → List Text → Node → Option Finding
unfolding is_addition field resolve incompatible describe line_of line_at report
mismatch_finding tree filename lines n = do
  guard (is_addition n)
  l ← field left n >>= resolve tree
  r ← field right n >>= resolve tree
  guard (incompatible l.0 r.0)
  line ← line_at lines (line_of n)
  some (
      report (codes "type_mismatch_checker") filename (line_of n) 0 (codes "runtime") critical
        (describe l.1 l.0
          ++ codes " + "
          ++ describe r.1 r.0
          ++ codes
              " — these types can't be added/concatenated — guaranteed TypeError every time this line "
          ++ codes "runs, not just a possible one.")
        line [])

unfoldable pub detect_type_mismatched_addition : (Text → Option Node) → Text → Text → List Finding
unfolding checked filter_map walk splitlines mismatch_finding
detect_type_mismatched_addition parse code filename =
    checked parse code
      (λ tree. filter_map (mismatch_finding tree filename (splitlines code)) (walk tree))
