-- ===== src/Analyzers/IndexGuard.antt =====
-- src/analyzers/index_guard_checker.py
pub mod OutOfBounds
pub mod Guards
pub mod Maxima
pub mod Largest
use githubprojectforissueide.Prelude.{
  ℕ, ◌+◌, ◌==◌, Bool, true, false, not, ◌&&◌, ◌||◌, List, [], ◌∷◌, ◌++◌, Option, none, some, any,
  length, if◌then◌else◌, ◌>>=◌, ◌>>◌, guard, ltb, leb,
}
use githubprojectforissueide.Text.{Text, codes, text_eq, splitlines, show}
use githubprojectforissueide.Models.{Finding, critical, warning}
use githubprojectforissueide.Syntax.{line_at}
use githubprojectforissueide.Analyzers.Tree.{
  Node, Kind, Constant, Comparison, kind, place, field, nodes, entries, walk, unary_op, negative,
  constant, name, integer, boolean, greater, greater_equal, test, value, left, comparators, operand,
  slice, elts, names, node,
}
use githubprojectforissueide.Analyzers.Shapes.{
  holds, one_of, filter_map, is_function, name_of, is_named, constant_of, comparisons_of,
  is_subscript, is_if, is_list, is_tuple,
}
use githubprojectforissueide.Analyzers.Utils.{
  identity, ParentMap, build_parent_map, owning_function, param_names, catches, line_indent,
  owning_statement_line, line_of,
}
use githubprojectforissueide.Analyzers.Reports.{
  report, once, single_assignment, checked, concat_map,
}
use githubprojectforissueide.Analyzers.Division.{is_len_of_name}

-- A literal index: `n`, or `-n`.
pub data Index : Type 0 where
  at : ℕ → Index
  back : ℕ → Index

abbrev integer_value : Constant → Option ℕ
integer_value (integer n) = some n
integer_value _ = none

abbrev kind_negates : Kind → Bool
kind_negates (unary_op negative) = true
kind_negates _ = false

unfoldable pub int_index_value : Node → Option Index
unfolding constant_of kind field
int_index_value n = elim (constant_of n >>= integer_value) [
  | some k ↦ some (at k)
  | none ↦ do
    guard (kind_negates (kind n))
    operand_node ← field operand n
    c ← constant_of operand_node
    k ← integer_value c
    some (back k)
]

-- `-length <= index < length`
unfoldable pub in_bounds : Index → ℕ → Bool
in_bounds (at k) len = ltb k len
in_bounds (back k) len = leb k len && ltb 0 (len + k)

unfoldable pub show_index : Index → Text
unfolding show
show_index (at k) = show k
show_index (back k) = if k == 0 then show 0 else codes "-" ++ show k

unfoldable pub is_sequence : Node → Bool
unfolding is_list is_tuple
is_sequence n = is_list n || is_tuple n

-- The length of a literal list or tuple, in place or under a name, and how it is described.
unfoldable pub literal_length : Node → Node → Option (ℕ × Text)
unfolding is_sequence is_list nodes entries name_of single_assignment show
literal_length tree n =
    if is_sequence n
    then some (
      length (entries elts n),
      codes "This "
          ++ (if is_list n then codes "list" else codes "tuple")
          ++ codes " literal has "
          ++ show (length (entries elts n))
          ++ codes " item(s)",
    )
    else do
      t ← name_of n
      v ← single_assignment tree t
      guard (is_sequence v)
      some (
        length (entries elts v),
        codes "'"
            ++ t
            ++ codes "' was assigned a literal with "
            ++ show (length (entries elts v))
            ++ codes " item(s)",
      )

unfoldable pub bounds_finding : ParentMap → Node → Text → List Text → Node → Option Finding
unfolding is_subscript field literal_length int_index_value in_bounds owning_statement_line line_at
    show_index line_indent report
bounds_finding pm tree filename lines n = do
  guard (is_subscript n)
  indexed ← field value n
  known ← literal_length tree indexed
  index_node ← field slice n
  index ← int_index_value index_node
  guard (not (in_bounds index known.0))
  line ← line_at lines (owning_statement_line pm n)
  some (
      report (codes "index_guard_checker") filename (owning_statement_line pm n) 0 (codes "runtime")
        critical
        (known.1
          ++ codes ", but is indexed at ["
          ++ show_index index
          ++ codes "] — guaranteed IndexError every time this line runs, not just a possible one.")
        line
        (line_indent line
          ++ codes "raise IndexError(f\""
          ++ known.1
          ++ codes ", but is indexed at ["
          ++ show_index index
          ++ codes "] -- this always fails\")\n"
          ++ line))

unfoldable pub literal_out_of_bounds_findings : ParentMap → Node → Text → List Text → List Finding
unfolding once filter_map bounds_finding walk
literal_out_of_bounds_findings pm tree filename lines =
    once [] (filter_map (bounds_finding pm tree filename lines) (walk tree))

-- The value of a constant that Python takes for an integer, and how it prints.
abbrev pub int_value : Constant → Option (ℕ × Text)
int_value (integer n) = some (n, show n)
int_value (boolean true) = some (1, codes "True")
int_value (boolean false) = some (0, codes "False")
int_value _ = none

-- `len(t) > k` with `k >= index`, or `len(t) >= k` with `k >= index + 1`.
abbrev bound_covers : ℕ → Comparison → ℕ → Bool
bound_covers index greater k = leb index k
bound_covers index greater_equal k = leb (index + 1) k
bound_covers index _ k = false

-- `zip(node.ops, node.comparators)`
unfoldable pub bounds_cover : ℕ → List Comparison → List Node → Bool
unfolding constant_of
bounds_cover index [] ns = false
bounds_cover index (op ∷ ops) [] = false
bounds_cover index (op ∷ ops) (n ∷ ns) =
    holds (λ v. bound_covers index op v.0) (constant_of n >>= int_value)
    || bounds_cover index ops ns

unfoldable pub guards_index : Text → ℕ → Node → Bool
unfolding comparisons_of field is_len_of_name bounds_cover nodes is_if is_named catches
guards_index t index n =
    holds
      (λ ops.
        holds (is_len_of_name t) (field left n) && bounds_cover index ops (nodes comparators n))
      (comparisons_of n)
    || (is_if n && holds (is_named t) (field test n))
    || catches (codes "IndexError" ∷ codes "Exception" ∷ []) n

unfoldable pub len_guard_covers : Node → Text → ℕ → Bool
unfolding any walk guards_index
len_guard_covers scope t index = any (guards_index t index) (walk scope)

-- `owning_function(parent_map, node) is func`
unfoldable pub is_owned_by : ParentMap → Node → Node → Bool
unfolding owning_function place
is_owned_by pm scope n = holds (λ f. identity f == identity scope) (owning_function pm n)

-- An access to a parameter at a literal index that no guard covers.
unfoldable pub unguarded_index : ParentMap → Node → Node → Option (Text × (ℕ × Text))
unfolding is_subscript field name_of one_of param_names is_owned_by constant_of len_guard_covers
unguarded_index pm scope n = do
  guard (is_subscript n)
  indexed ← field value n
  t ← name_of indexed
  guard (one_of (param_names scope) t)
  guard (is_owned_by pm scope n)
  index_node ← field slice n
  c ← constant_of index_node
  index ← int_value c
  guard (not (len_guard_covers scope t index.0))
  some (t, index)

-- `by_var[t] = max(by_var.get(t, -1), index)`, in the order in which the names come up.
unfoldable pub raise_max : Text → ℕ × Text → List (Text × (ℕ × Text)) → List (Text × (ℕ × Text))
unfolding text_eq
raise_max t index [] = (t, index) ∷ []
raise_max t index ((u, old) ∷ more) =
    let rest = raise_max t index more in
    if text_eq u t then (u, if ltb old.0 index.0 then index else old) ∷ more else (u, old) ∷ rest

unfoldable pub max_indices :
    List (Text × (ℕ × Text)) → List (Text × (ℕ × Text)) → List (Text × (ℕ × Text))
unfolding raise_max
max_indices by_var [] = by_var
max_indices by_var ((t, index) ∷ more) = max_indices (raise_max t index by_var) more

unfoldable pub index_finding : Text → List Text → Node → Text × (ℕ × Text) → Option Finding
unfolding line_at line_of line_indent show report
index_finding filename lines scope (t, index) = do
  line ← line_at lines (line_of scope)
  some (
      report (codes "index_guard_checker") filename (line_of scope) 0 (codes "runtime") warning
        (codes "'"
          ++ t
          ++ codes "' is indexed at ["
          ++ index.1
          ++ codes "] with no length check — raises IndexError if the caller passes fewer than "
          ++ show (index.0 + 1)
          ++ codes " item(s).")
        line
        (line
          ++ codes "\n"
          ++ line_indent line
          ++ codes "    if len("
          ++ t
          ++ codes ") <= "
          ++ index.1
          ++ codes ":\n"
          ++ line_indent line
          ++ codes "        raise IndexError(f\"'"
          ++ t
          ++ codes "' has fewer than "
          ++ show (index.0 + 1)
          ++ codes " item(s)\")"))

unfoldable pub index_findings : ParentMap → Text → List Text → Node → List Finding
unfolding is_function filter_map index_finding max_indices unguarded_index walk
index_findings pm filename lines scope =
    if is_function scope
    then filter_map (index_finding filename lines scope)
        (max_indices [] (filter_map (unguarded_index pm scope) (walk scope)))
    else []

unfoldable pub detect_unguarded_index_access : (Text → Option Node) → Text → Text → List Finding
unfolding checked literal_out_of_bounds_findings concat_map index_findings walk splitlines
    build_parent_map
detect_unguarded_index_access parse code filename = checked parse code (λ tree.
    literal_out_of_bounds_findings (build_parent_map tree) tree filename (splitlines code)
    ++ concat_map (index_findings (build_parent_map tree) filename (splitlines code)) (walk tree))
