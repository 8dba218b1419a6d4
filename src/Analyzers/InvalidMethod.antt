-- ===== src/Analyzers/InvalidMethod.antt =====
-- src/analyzers/invalid_method_checker.py
use githubprojectforissueide.Prelude.{
  Bool, not, List, [], ◌++◌, Option, none, some, ◌>>=◌, ◌>>◌, guard,
}
use githubprojectforissueide.Text.{Text, codes, splitlines}
use githubprojectforissueide.Models.{Finding, critical}
use githubprojectforissueide.Syntax.{line_at}
use githubprojectforissueide.Analyzers.Tree.{
  Node, Kind, Constant, kind, field, walk, dict_display, set_display, list_display, tuple_display,
  constant, string, integer, float, complex, boolean, bytes, none_value, ellipsis, value, func,
  set_display,
}
use githubprojectforissueide.Analyzers.Shapes.{filter_map, name_of, attr_of, is_call}
use githubprojectforissueide.Analyzers.Utils.{line_of}
use githubprojectforissueide.Analyzers.Reports.{report, single_assignment, checked}

abbrev constant_type : Constant → Text
constant_type (string s) = codes "str"
constant_type (integer n) = codes "int"
constant_type (float z) = codes "float"
constant_type (complex z) = codes "complex"
constant_type (boolean b) = codes "bool"
constant_type (bytes b) = codes "bytes"
constant_type none_value = codes "NoneType"
constant_type ellipsis = codes "ellipsis"

abbrev kind_type : Kind → Option Text
kind_type (constant c) = some (constant_type c)
kind_type list_display = some (codes "list")
kind_type tuple_display = some (codes "tuple")
kind_type dict_display = some (codes "dict")
kind_type set_display = some (codes "set")
kind_type _ = none

-- The name of the type of a literal.
unfoldable pub literal_type : Node → Option Text
unfolding kind
literal_type n = kind_type (kind n)

-- The type of what a method is called on, and how it is described.
unfoldable pub receiver_type : Node → Node → Option (Text × Text)
unfolding literal_type name_of single_assignment
receiver_type tree n = elim (literal_type n) [
  | some t ↦ some (t, t)
  | none ↦ do
    id ← name_of n
    v ← single_assignment tree id
    t ← literal_type v
    some (t, codes "'" ++ id ++ codes "' (" ++ t ++ codes ")")
]

-- `has_attribute` is `hasattr` on the type of that name.
unfoldable pub method_finding :
    (Text → Text → Bool) → Node → Text → List Text → Node → Option Finding
unfolding is_call field attr_of receiver_type line_of line_at report
method_finding has_attribute tree filename lines n = do
  guard (is_call n)
  callee ← field func n
  method ← attr_of callee
  receiver ← field value callee
  t ← receiver_type tree receiver
  guard (not (has_attribute t.0 method))
  line ← line_at lines (line_of n)
  some (
      report (codes "invalid_method_checker") filename (line_of n) 0 (codes "runtime") critical
        (t.1
          ++ codes " has no '"
          ++ method
          ++ codes
              "' method — guaranteed AttributeError every time this line runs, not just a possible one.")
        line [])

unfoldable pub detect_invalid_method_calls :
    (Text → Option Node) → (Text → Text → Bool) → Text → Text → List Finding
unfolding checked filter_map walk splitlines method_finding
detect_invalid_method_calls parse has_attribute code filename =
    checked parse code (λ tree.
      filter_map (method_finding has_attribute tree filename (splitlines code)) (walk tree))
