-- ===== src/Analyzers/Shapes.antt =====
-- The tests that the checkers make of a node: `isinstance`, and the attributes of a class.
mod Values
pub use Values.{
  holds, kind_is_function, kind_is_statement, is_div, is_add, is_membership, constant_is,
}
unfoldable pub use Values.{
  one_of, filter_map, is_function, is_statement, name_of, is_named, attr_of, is_attribute_on,
  is_call, calls_name, calls_on, has_argument, constant_of, string_of, operator_of, is_division,
  is_addition, comparisons_of,
}
use githubprojectforissueide.Prelude.{
  ◌==◌, Bool, true, false, ◌&&◌, ◌||◌, List, [], ◌∷◌, none, some, any, if◌then◌else◌,
}
use githubprojectforissueide.Text.{Text, text_eq}
use githubprojectforissueide.Analyzers.Tree.{
  Node, Kind, kind, field, nodes, function_def, class_def, return_stmt, assign, aug_assign,
  ann_assign, if_stmt, try_stmt, assert_stmt, import_stmt, dict_display, list_display,
  tuple_display, subscript, alias, names, keyword, left, lambda, unary_op, not_op, operand,
}

abbrev kind_is : Kind → Kind → Bool
kind_is subscript subscript = true
kind_is if_stmt if_stmt = true
kind_is try_stmt try_stmt = true
kind_is assign assign = true
kind_is aug_assign aug_assign = true
kind_is ann_assign ann_assign = true
kind_is return_stmt return_stmt = true
kind_is assert_stmt assert_stmt = true
kind_is import_stmt import_stmt = true
kind_is dict_display dict_display = true
kind_is list_display list_display = true
kind_is tuple_display tuple_display = true
kind_is lambda lambda = true
kind_is _ _ = false

unfoldable pub is_subscript : Node → Bool
unfolding kind
is_subscript n = kind_is subscript (kind n)

unfoldable pub is_if : Node → Bool
unfolding kind
is_if n = kind_is if_stmt (kind n)

unfoldable pub is_try : Node → Bool
unfolding kind
is_try n = kind_is try_stmt (kind n)

unfoldable pub is_assign : Node → Bool
unfolding kind
is_assign n = kind_is assign (kind n)

unfoldable pub is_aug_assign : Node → Bool
unfolding kind
is_aug_assign n = kind_is aug_assign (kind n)

unfoldable pub is_ann_assign : Node → Bool
unfolding kind
is_ann_assign n = kind_is ann_assign (kind n)

unfoldable pub is_return : Node → Bool
unfolding kind
is_return n = kind_is return_stmt (kind n)

unfoldable pub is_assert : Node → Bool
unfolding kind
is_assert n = kind_is assert_stmt (kind n)

unfoldable pub is_dict : Node → Bool
unfolding kind
is_dict n = kind_is dict_display (kind n)

unfoldable pub is_list : Node → Bool
unfolding kind
is_list n = kind_is list_display (kind n)

unfoldable pub is_tuple : Node → Bool
unfolding kind
is_tuple n = kind_is tuple_display (kind n)

abbrev kind_is_class : Kind → Bool
kind_is_class (class_def n) = true
kind_is_class _ = false

unfoldable pub is_class : Node → Bool
unfolding kind
is_class n = kind_is_class (kind n)

-- A node at which the scope of a name ends.
unfoldable pub is_scope_boundary : Node → Bool
unfolding is_function kind is_class
is_scope_boundary n = is_function n || kind_is lambda (kind n) || is_class n

-- `isinstance(node, ast.Import)` with a name under which the module `t` is imported, by its own name.
abbrev names_module : Text → Kind → Bool
names_module t (alias n none) = text_eq n t
names_module t _ = false

unfoldable pub imports : Text → Node → Bool
unfolding kind nodes any text_eq
imports t n = kind_is import_stmt (kind n) && any (λ a. names_module t (kind a)) (nodes names n)

abbrev keyword_is : Text → Kind → Bool
keyword_is t (keyword (some k)) = text_eq k t
keyword_is t _ = false

-- `kw.arg == t`
unfoldable pub is_keyword : Text → Node → Bool
unfolding kind text_eq
is_keyword t n = keyword_is t (kind n)

abbrev pub kind_function_name : Kind → Text
kind_function_name (function_def a n) = n
kind_function_name (class_def n) = n
kind_function_name _ = []

-- `func.name`, and `cls.name`
unfoldable pub definition_name : Node → Text
unfolding kind
definition_name n = kind_function_name (kind n)

-- `not node.operand` of a name.
unfoldable pub is_negated_name : Text → Node → Bool
unfolding kind field is_named
is_negated_name t n = elim (kind n) [
  | unary_op not_op ↦ holds (is_named t) (field operand n)
  | _ ↦ false
]

-- A comparison by `in` or `not in` with the text `t` on its left.
unfoldable pub tests_membership : Text → Node → Bool
unfolding comparisons_of constant_of field any text_eq
tests_membership t n =
    holds (any is_membership) (comparisons_of n)
    && holds (λ l. holds (constant_is t) (constant_of l)) (field left n)

-- The modules that are imported at all.
unfoldable pub has_import : Text → List Node → Bool
unfolding any imports
has_import t = any (imports t)

-- `text.split(".")[0]`
unfoldable pub before_dot : Text → Text
before_dot [] = []
before_dot (c ∷ t) = if c == b'.' then [] else c ∷ before_dot t
