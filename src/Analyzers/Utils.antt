-- ===== src/Analyzers/Utils.antt =====
-- src/analyzers/_ast_utils.py. A parent map holds its entries in the order in which they are written, and
-- the depth of the tree, which bounds the loops that follow it upwards.
use githubprojectforissueide.Prelude.{
  ℕ, zero, suc, ◌==◌, Bool, true, false, ◌&&◌, List, [], ◌∷◌, ◌++◌, Option, none, some, any, length,
  if◌then◌else◌,
}
use githubprojectforissueide.Text.{Text, indent, pad}
use githubprojectforissueide.Analyzers.Tree.{
  Node, place, kind, field, nodes, child_nodes, levels_below, walk, args, posonlyargs, kwonlyargs,
  elts, arg, exception_type, handlers, Kind,
}
use githubprojectforissueide.Analyzers.Shapes.{
  is_function, is_statement, name_of, attr_of, filter_map, one_of, is_tuple, is_try,
}

abbrev pub identity : Node → ℕ
identity n = (place n).identity

pub record ParentMap : Type 0 where
  pub parents : List (ℕ × Node)
  pub depth : ℕ

-- `parents[id(child)] = node` for the children of a node
unfoldable pub child_entries : Node → List Node → List (ℕ × Node)
unfolding place
child_entries n [] = []
child_entries n (c ∷ cs) = (identity c, n) ∷ child_entries n cs

unfoldable pub all_entries : List Node → List (ℕ × Node)
unfolding child_entries child_nodes
all_entries [] = []
all_entries (n ∷ ns) = child_entries n (child_nodes n) ++ all_entries ns

unfoldable pub build_parent_map : Node → ParentMap
unfolding all_entries walk
build_parent_map tree = record {
  parents = all_entries (walk tree);
  depth = suc (length (levels_below tree));
}

-- `parents.get(k)`, where the last entry counts.
unfoldable pub get : ℕ → List (ℕ × Node) → Option Node
get k [] = none
get k ((j, n) ∷ more) = elim (get k more) [
  | some m ↦ some m
  | none ↦ if j == k then some n else none
]

unfoldable pub parent_of : ParentMap → Node → Option Node
unfolding get place
parent_of pm n = get (identity n) pm.parents

-- The loop of `owning_function`.
unfoldable pub owner_loop : ℕ → ParentMap → Node → Option Node
unfolding parent_of is_function
owner_loop zero pm n = none
owner_loop (suc fuel) pm n = elim (parent_of pm n) [
  | none ↦ none
  | some p ↦ elim (is_function p) [ true ↦ some p | false ↦ owner_loop fuel pm p ]
]

unfoldable pub owning_function : ParentMap → Node → Option Node
unfolding owner_loop
owning_function pm n = owner_loop pm.depth pm n

abbrev kind_arg : Kind → Option Text
kind_arg (arg n) = some n
kind_arg _ = none

-- `a.arg`
unfoldable pub arg_names : List Node → List Text
unfolding filter_map kind
arg_names = filter_map (λ a. kind_arg (kind a))

-- The names of the parameters in a field of `func.args`.
abbrev pub params_in : Node → (Node → List Node) → List Text
params_in func get_nodes = elim (field args func) [ none ↦ [] | some a ↦ arg_names (get_nodes a) ]

-- The set of the names of the parameters.
unfoldable pub param_names : Node → List Text
unfolding arg_names field nodes
param_names func =
    params_in func (nodes args)
    ++ params_in func (nodes posonlyargs)
    ++ params_in func (nodes kwonlyargs)

-- A name, or the last part of a dotted one.
unfoldable pub exception_name : Node → Option Text
unfolding name_of attr_of
exception_name n = elim (name_of n) [ some t ↦ some t | none ↦ attr_of n ]

unfoldable pub exception_names : Option Node → List Text
unfolding exception_name filter_map nodes is_tuple
exception_names none = []
exception_names (some n) = elim (exception_name n) [
  | some t ↦ t ∷ []
  | none ↦ if is_tuple n then filter_map exception_name (nodes elts n) else []
]

-- A `try` with a handler for one of some exceptions.
unfoldable pub catches : List Text → Node → Bool
unfolding is_try nodes field exception_names one_of any
catches texts n =
    is_try n
    && any (λ h. any (one_of texts) (exception_names (field exception_type h))) (nodes handlers n)

unfoldable pub line_indent : Text → Text
unfolding indent pad
line_indent line = pad (indent line) []

-- The loop of `owning_statement_line`.
unfoldable pub statement_loop : ℕ → ParentMap → Node → Node
unfolding parent_of is_statement
statement_loop zero pm n = n
statement_loop (suc fuel) pm n = elim (is_statement n) [
  | true ↦ n
  | false ↦ elim (parent_of pm n) [ none ↦ n | some p ↦ statement_loop fuel pm p ]
]

abbrev pub or_else : Option ℕ → ℕ → ℕ
or_else none d = d
or_else (some k) d = k

-- `node.lineno`
unfoldable pub line_of : Node → ℕ
unfolding place
line_of n = or_else (place n).lineno 0

unfoldable pub owning_statement_line : ParentMap → Node → ℕ
unfolding statement_loop place line_of
owning_statement_line pm n =
    let current = statement_loop pm.depth pm n in or_else (place current).lineno (line_of n)

-- `node.end_lineno or node.lineno`
unfoldable pub end_line_of : Node → ℕ
unfolding place line_of
end_line_of n = elim (place n).end_lineno [
  | none ↦ line_of n
  | some k ↦ if k == 0 then line_of n else k
]
