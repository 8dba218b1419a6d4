-- ===== src/Analyzers/Division.antt =====
-- src/analyzers/division_guard_checker.py
pub mod ByZero
use githubprojectforissueide.Prelude.{
  zero, ◌==◌, Bool, true, false, not, ◌&&◌, ◌||◌, List, [], ◌∷◌, ◌++◌, Option, none, some, any,
  length, if◌then◌else◌, ◌>>=◌, ◌>>◌, guard,
}
use githubprojectforissueide.Text.{Text, codes, splitlines}
use githubprojectforissueide.Models.{Finding, critical, warning}
use githubprojectforissueide.Syntax.{line_at}
use githubprojectforissueide.Analyzers.Tree.{
  Node, Constant, Comparison, field, nodes, walk, first_of, integer, float, greater, greater_equal,
  equal, not_equal, test, left, right, args,
}
use githubprojectforissueide.Analyzers.Shapes.{
  holds, one_of, filter_map, name_of, is_named, calls_name, constant_of, is_division,
  comparisons_of, is_if, is_negated_name,
}
use githubprojectforissueide.Analyzers.Utils.{
  ParentMap, build_parent_map, owning_function, param_names, catches, line_indent,
  owning_statement_line,
}
use githubprojectforissueide.Analyzers.Reports.{report, once, single_assignment, checked}

-- `len(t)`
unfoldable pub is_len_of_name : Text → Node → Bool
unfolding calls_name nodes is_named
is_len_of_name t n =
    calls_name (codes "len") n
    && elim (nodes args n) [ [] ↦ false | a ∷ [] ↦ is_named t a | _ ↦ false ]

unfoldable pub truthy_guard_on : Text → Node → Bool
unfolding is_named is_negated_name
truthy_guard_on t n = is_named t n || is_negated_name t n

abbrev is_bound : Comparison → Bool
is_bound equal = true
is_bound not_equal = true
is_bound greater = true
is_bound greater_equal = true
is_bound _ = false

-- A test that asks whether the divisor is zero.
unfoldable pub tests_divisor : Text → Bool → Node → Bool
unfolding comparisons_of any field is_named is_len_of_name truthy_guard_on
tests_divisor t is_len_shape n =
    (holds (any is_bound) (comparisons_of n)
      && holds (λ l. is_named t l || (is_len_shape && is_len_of_name t l)) (field left n))
    || truthy_guard_on t n

unfoldable pub guards_division : Text → Bool → Node → Bool
unfolding is_if field tests_divisor catches
guards_division t is_len_shape n =
    (is_if n && holds (tests_divisor t is_len_shape) (field test n))
    || catches (codes "ZeroDivisionError" ∷ codes "Exception" ∷ []) n

unfoldable pub already_guarded : Node → Text → Bool → Bool
unfolding any walk guards_division
already_guarded scope t is_len_shape = any (guards_division t is_len_shape) (walk scope)

abbrev is_zero : Constant → Bool
is_zero (integer n) = n == 0
is_zero (float z) = z
is_zero _ = false

unfoldable pub is_zero_literal : Node → Bool
unfolding constant_of
is_zero_literal n = holds is_zero (constant_of n)

-- The divisor, if it is known to be zero, described.
unfoldable pub zero_divisor : Node → Node → Option Text
unfolding is_zero_literal name_of single_assignment
zero_divisor tree divisor = if is_zero_literal divisor then some (codes "a literal 0") else do
  t ← name_of divisor
  v ← single_assignment tree t
  guard (is_zero_literal v)
  some (codes "'" ++ t ++ codes "', which was assigned the literal 0")

unfoldable pub zero_finding : ParentMap → Node → Text → List Text → Node → Option Finding
unfolding is_division field zero_divisor owning_statement_line line_at line_indent report
zero_finding pm tree filename lines n = do
  guard (is_division n)
  divisor ← field right n
  described ← zero_divisor tree divisor
  line ← line_at lines (owning_statement_line pm n)
  some (
      report (codes "division_guard_checker") filename (owning_statement_line pm n) 0
        (codes "runtime") critical
        (codes "Division by "
          ++ described
          ++ codes
              " — guaranteed ZeroDivisionError every time this line runs, not just a possible one.")
        line
        (line_indent line
          ++ codes "raise ZeroDivisionError(f\"division by "
          ++ described
          ++ codes
              " on this line always fails -- fix the divisor, this does not make the operation succeed\")\n"
          ++ line))

unfoldable pub literal_zero_division_findings : ParentMap → Node → Text → List Text → List Finding
unfolding once filter_map zero_finding walk
literal_zero_division_findings pm tree filename lines =
    once [] (filter_map (zero_finding pm tree filename lines) (walk tree))

-- A parameter as the divisor, or its length.
unfoldable pub parameter_divisor : List Text → Node → Option (Text × Bool)
unfolding name_of one_of calls_name nodes first_of
parameter_divisor params divisor = elim (name_of divisor) [
  | some t ↦ if one_of params t then some (t, false) else none
  | none ↦ do
    guard (calls_name (codes "len") divisor)
    a ← first_of (nodes args divisor)
    t ← name_of a
    guard (one_of params t)
    some (t, true)
]

unfoldable pub divisor_text : Text → Bool → Text
divisor_text t is_len_shape = if is_len_shape then codes "len(" ++ t ++ codes ")" else t

unfoldable pub division_message : Text → Bool → Text
division_message t is_len_shape =
    if is_len_shape
    then codes "Division by len('"
      ++ t
      ++ codes
          "') with no empty-check — raises ZeroDivisionError if the caller passes an empty sequence."
    else codes "Division by parameter '"
      ++ t
      ++ codes "' with no zero-check — raises ZeroDivisionError if the caller passes 0."

unfoldable pub division_fix : Text → Bool → Text → Text
unfolding line_indent divisor_text
division_fix t is_len_shape line =
    line_indent line
    ++ codes "if "
    ++ divisor_text t is_len_shape
    ++ codes " == 0:\n"
    ++ line_indent line
    ++ codes "    raise ZeroDivisionError(f\"'"
    ++ t
    ++ codes "' is "
    ++ (if is_len_shape then codes "empty" else codes "zero")
    ++ codes "\")\n"
    ++ line

unfoldable pub division_finding : ParentMap → Text → List Text → Node → Option Finding
unfolding is_division owning_function field parameter_divisor param_names already_guarded
    owning_statement_line line_at division_message division_fix report
division_finding pm filename lines n = do
  guard (is_division n)
  scope ← owning_function pm n
  divisor ← field right n
  d ← parameter_divisor (param_names scope) divisor
  guard (not (already_guarded scope d.0 d.1))
  line ← line_at lines (owning_statement_line pm n)
  some (
      report (codes "division_guard_checker") filename (owning_statement_line pm n) 0
        (codes "runtime") warning (division_message d.0 d.1) line (division_fix d.0 d.1 line))

unfoldable pub detect_unguarded_division : (Text → Option Node) → Text → Text → List Finding
unfolding checked literal_zero_division_findings once filter_map walk splitlines build_parent_map
    division_finding
detect_unguarded_division parse code filename = checked parse code (λ tree.
    literal_zero_division_findings (build_parent_map tree) tree filename (splitlines code)
    ++ once [] (
        filter_map (division_finding (build_parent_map tree) filename (splitlines code))
          (walk tree)))
