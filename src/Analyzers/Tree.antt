-- ===== src/Analyzers/Tree.antt =====
-- Python's syntax trees, as the module `ast` gives them to the checkers of src/analyzers: each node has a
-- class with the attributes that are not nodes, and its child nodes under the names of their fields.
-- The nodes of operators and of contexts, which no checker meets in a walk, are attributes here.
use githubprojectforissueide.Prelude.{
  ℕ, ◌==◌, Bool, List, [], ◌∷◌, ◌++◌, Option, none, some, if◌then◌else◌,
}
use githubprojectforissueide.Text.{Text}

pub data Operator : Type 0 where
  add div mod_op other_operator : Operator

pub data UnaryOperator : Type 0 where
  not_op negative other_unary : UnaryOperator

pub data Comparison : Type 0 where
  equal not_equal less less_equal greater greater_equal : Comparison
  same not_same member not_member : Comparison

-- The value of `ast.Constant`. Of a float and of a complex number the checkers ask whether it is zero,
-- and a literal has no sign.
pub data Constant : Type 0 where
  string : Text → Constant
  integer : ℕ → Constant
  float : (is_zero : Bool) → Constant
  complex : (is_zero : Bool) → Constant
  boolean : Bool → Constant
  bytes : List ℕ → Constant
  none_value ellipsis : Constant

pub data Kind : Type 0 where
  module_root : Kind
  function_def : (is_async : Bool) → (name : Text) → Kind
  class_def : (name : Text) → Kind
  return_stmt assign aug_assign ann_assign while_loop if_stmt try_stmt assert_stmt : Kind
  for_loop with_stmt : (is_async : Bool) → Kind
  import_stmt : Kind
  import_from : (source : Option Text) → Kind
  break_stmt continue_stmt other_stmt : Kind
  lambda dict_display set_display list_display tuple_display yield_expr yield_from : Kind
  bin_op : Operator → Kind
  unary_op : UnaryOperator → Kind
  compare_expr : List Comparison → Kind
  call formatted_value joined_str subscript other_expr : Kind
  constant : Constant → Kind
  attribute : (attr : Text) → Kind
  name : (id : Text) → (is_stored : Bool) → Kind
  arguments except_handler with_item other_node : Kind
  arg : (name : Text) → Kind
  keyword : (name : Option Text) → Kind
  alias : (name : Text) → (asname : Option Text) → Kind

-- The fields that the checkers read.
pub data Field : Type 0 where
  test body targets target value values left right comparators operand func args posonlyargs : Field
  kwonlyargs keywords slice keys elts handlers exception_type items context_expr names : Field
  decorator_list other_field : Field

unfoldable pub field_number : Field → ℕ
field_number test = 0
field_number body = 1
field_number targets = 2
field_number target = 3
field_number value = 4
field_number values = 5
field_number left = 6
field_number right = 7
field_number comparators = 8
field_number operand = 9
field_number func = 10
field_number args = 11
field_number posonlyargs = 12
field_number kwonlyargs = 13
field_number keywords = 14
field_number slice = 15
field_number keys = 16
field_number elts = 17
field_number handlers = 18
field_number exception_type = 19
field_number items = 20
field_number context_expr = 21
field_number names = 22
field_number decorator_list = 23
field_number other_field = 24

unfoldable pub same_field : Field → Field → Bool
unfolding field_number
same_field f g = field_number f == field_number g

-- `id(node)`, and the attributes of its place, which some classes have not.
pub record Place : Type 0 where
  pub identity : ℕ
  pub lineno : Option ℕ
  pub end_lineno : Option ℕ
  pub col_offset : ℕ

-- `absent` is a `None` in a list of nodes, such as the key of `**other` in a dictionary.
mutual
  pub data Node : Type 0 where
    node : Place → Kind → Children → Node

  pub data Children : Type 0 where
    end : Children
    child : Field → Node → Children → Children
    absent : Field → Children → Children

unfoldable pub place : Node → Place
place (node p k cs) = p

unfoldable pub kind : Node → Kind
kind (node p k cs) = k

unfoldable pub nodes_in : Children → List Node
nodes_in end = []
nodes_in (child f n cs) = n ∷ nodes_in cs
nodes_in (absent f cs) = nodes_in cs

-- `ast.iter_child_nodes(node)`
unfoldable pub child_nodes : Node → List Node
unfolding nodes_in
child_nodes (node p k cs) = nodes_in cs

-- Two levels of a tree side by side.
unfoldable pub join_levels : List (List Node) → List (List Node) → List (List Node)
join_levels [] ms = ms
join_levels (l ∷ ls) [] = l ∷ ls
join_levels (l ∷ ls) (m ∷ ms) = (l ++ m) ∷ join_levels ls ms

-- The nodes below a node, by their depth.
unfoldable mutual
  unfolding join_levels

  pub levels_below : Node → List (List Node)
  levels_below (node p k cs) = levels_of cs

  pub levels_of : Children → List (List Node)
  levels_of end = []
  levels_of (child f n cs) = join_levels ((n ∷ []) ∷ levels_below n) (levels_of cs)
  levels_of (absent f cs) = levels_of cs

unfoldable pub concat : List (List Node) → List Node
concat [] = []
concat (l ∷ ls) = l ++ concat ls

-- `ast.walk(node)`: breadth first, from the node itself.
unfoldable pub walk : Node → List Node
unfolding levels_below concat
walk n = n ∷ concat (levels_below n)

-- `getattr(node, f)` of a list of nodes, with the places of `None`.
unfoldable pub entries_of : Field → Children → List (Option Node)
unfolding same_field
entries_of f end = []
entries_of f (child g n cs) =
    let rest = entries_of f cs in if same_field f g then some n ∷ rest else rest
entries_of f (absent g cs) =
    let rest = entries_of f cs in if same_field f g then none ∷ rest else rest

unfoldable pub present : List (Option Node) → List Node
present [] = []
present (none ∷ ns) = present ns
present (some n ∷ ns) = n ∷ present ns

unfoldable pub first_of : List Node → Option Node
first_of [] = none
first_of (n ∷ ns) = some n

unfoldable pub entries : Field → Node → List (Option Node)
unfolding entries_of
entries f (node p k cs) = entries_of f cs

-- `node.f`, a list of nodes
unfoldable pub nodes : Field → Node → List Node
unfolding entries present
nodes f n = present (entries f n)

-- `node.f`, a node or `None`
unfoldable pub field : Field → Node → Option Node
unfolding nodes first_of
field f n = first_of (nodes f n)
