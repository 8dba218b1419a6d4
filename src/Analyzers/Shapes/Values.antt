-- ===== src/Analyzers/Shapes/Values.antt =====
-- Functions, statements, names, calls, literals and operators, as src/analyzers tests a node for them.
use githubprojectforissueide.Prelude.{
  Bool, true, false, ◌&&◌, List, [], ◌∷◌, Option, none, some, any, ◌>>=◌,
}
use githubprojectforissueide.Text.{Text, text_eq}
use githubprojectforissueide.Analyzers.Tree.{
  Node, Kind, Constant, Operator, Comparison, kind, field, nodes, function_def, class_def,
  return_stmt, assign, aug_assign, ann_assign, while_loop, if_stmt, try_stmt, assert_stmt, for_loop,
  with_stmt, import_stmt, import_from, break_stmt, continue_stmt, other_stmt, bin_op, add, div,
  compare_expr, call, constant, attribute, name, string, value, func, args, member, not_member,
}

-- A test of what may be missing, or `None`.
abbrev pub holds {ℓ} : {A : Type ℓ} → (A → Bool) → Option A → Bool
holds p none = false
holds p (some a) = p a

-- `text in {"…", …}`
unfoldable pub one_of : List Text → Text → Bool
unfolding any text_eq
one_of texts t = any (text_eq t) texts

-- `[f(a) for a in … if …]`, where `f` decides.
unfoldable pub filter_map {ℓ κ} : {A : Type ℓ} {B : Type κ} → (A → Option B) → List A → List B
filter_map f [] = []
filter_map f (a ∷ more) =
    let rest = filter_map f more in elim (f a) [ none ↦ rest | some b ↦ b ∷ rest ]

abbrev pub kind_is_function : Kind → Bool
kind_is_function (function_def a n) = true
kind_is_function _ = false

-- `isinstance(node, (ast.FunctionDef, ast.AsyncFunctionDef))`
unfoldable pub is_function : Node → Bool
unfolding kind
is_function n = kind_is_function (kind n)

abbrev pub kind_is_statement : Kind → Bool
kind_is_statement (function_def a n) = true
kind_is_statement (class_def n) = true
kind_is_statement return_stmt = true
kind_is_statement assign = true
kind_is_statement aug_assign = true
kind_is_statement ann_assign = true
kind_is_statement while_loop = true
kind_is_statement if_stmt = true
kind_is_statement try_stmt = true
kind_is_statement assert_stmt = true
kind_is_statement (for_loop a) = true
kind_is_statement (with_stmt a) = true
kind_is_statement import_stmt = true
kind_is_statement (import_from m) = true
kind_is_statement break_stmt = true
kind_is_statement continue_stmt = true
kind_is_statement other_stmt = true
kind_is_statement _ = false

-- `isinstance(node, ast.stmt)`
unfoldable pub is_statement : Node → Bool
unfolding kind
is_statement n = kind_is_statement (kind n)

abbrev kind_name : Kind → Option Text
kind_name (name id s) = some id
kind_name _ = none

-- `node.id` of an `ast.Name`
unfoldable pub name_of : Node → Option Text
unfolding kind
name_of n = kind_name (kind n)

-- `isinstance(node, ast.Name) and node.id == t`
unfoldable pub is_named : Text → Node → Bool
unfolding name_of text_eq
is_named t n = holds (λ id. text_eq id t) (name_of n)

abbrev kind_attr : Kind → Option Text
kind_attr (attribute a) = some a
kind_attr _ = none

-- `node.attr` of an `ast.Attribute`
unfoldable pub attr_of : Node → Option Text
unfolding kind
attr_of n = kind_attr (kind n)

-- An attribute of a name, `t.attr`, with what the attribute has to be.
unfoldable pub is_attribute_on : (Text → Bool) → Text → Node → Bool
unfolding attr_of is_named field
is_attribute_on p t n = holds p (attr_of n) && holds (is_named t) (field value n)

abbrev kind_is_call : Kind → Bool
kind_is_call call = true
kind_is_call _ = false

unfoldable pub is_call : Node → Bool
unfolding kind
is_call n = kind_is_call (kind n)

-- A call of a name.
unfoldable pub calls_name : Text → Node → Bool
unfolding is_call is_named field
calls_name t n = is_call n && holds (is_named t) (field func n)

-- A call `t.attr(…)`, with what the attribute has to be.
unfoldable pub calls_on : (Text → Bool) → Text → Node → Bool
unfolding is_call is_attribute_on field
calls_on p t n = is_call n && holds (is_attribute_on p t) (field func n)

-- `any(isinstance(a, ast.Name) and a.id == t for a in node.args)`
unfoldable pub has_argument : Text → Node → Bool
unfolding is_named nodes any
has_argument t n = any (is_named t) (nodes args n)

abbrev kind_constant : Kind → Option Constant
kind_constant (constant c) = some c
kind_constant _ = none

-- `node.value` of an `ast.Constant`
unfoldable pub constant_of : Node → Option Constant
unfolding kind
constant_of n = kind_constant (kind n)

abbrev string_value : Constant → Option Text
string_value (string s) = some s
string_value _ = none

-- The value of a literal text.
unfoldable pub string_of : Node → Option Text
unfolding constant_of
string_of n = constant_of n >>= string_value

abbrev kind_operator : Kind → Option Operator
kind_operator (bin_op o) = some o
kind_operator _ = none

-- `node.op` of an `ast.BinOp`
unfoldable pub operator_of : Node → Option Operator
unfolding kind
operator_of n = kind_operator (kind n)

abbrev pub is_div : Operator → Bool
is_div div = true
is_div _ = false

abbrev pub is_add : Operator → Bool
is_add add = true
is_add _ = false

-- `isinstance(node, ast.BinOp) and isinstance(node.op, ast.Div)`
unfoldable pub is_division : Node → Bool
unfolding operator_of
is_division n = holds is_div (operator_of n)

unfoldable pub is_addition : Node → Bool
unfolding operator_of
is_addition n = holds is_add (operator_of n)

abbrev kind_comparisons : Kind → Option (List Comparison)
kind_comparisons (compare_expr ops) = some ops
kind_comparisons _ = none

-- `node.ops` of an `ast.Compare`
unfoldable pub comparisons_of : Node → Option (List Comparison)
unfolding kind
comparisons_of n = kind_comparisons (kind n)

abbrev pub is_membership : Comparison → Bool
is_membership member = true
is_membership not_member = true
is_membership _ = false

-- Whether a literal is the text `t`.
abbrev pub constant_is : Text → Constant → Bool
constant_is t (string s) = text_eq s t
constant_is t _ = false
