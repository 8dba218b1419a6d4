-- ===== src/Analyzers/UnstoredParams.antt =====
-- src/analyzers/unstored_constructor_param_checker.py
use githubprojectforissueide.Prelude.{
  ◌==◌, Bool, true, false, not, ◌&&◌, List, [], ◌∷◌, ◌++◌, Option, none, some, any, map,
  if◌then◌else◌, ◌>>=◌, ◌>>◌, guard, select,
}
use githubprojectforissueide.Text.{Text, codes, text_eq, splitlines}
use githubprojectforissueide.Models.{Finding, critical}
use githubprojectforissueide.Syntax.{line_at}
use githubprojectforissueide.Analyzers.Tree.{
  Node, Kind, kind, place, field, nodes, walk, first_of, function_def, body, targets, target, value,
  args, posonlyargs, kwonlyargs,
}
use githubprojectforissueide.Analyzers.Shapes.{
  holds, filter_map, is_function, is_attribute_on, is_assign, is_aug_assign, is_ann_assign,
  is_class, definition_name,
}
use githubprojectforissueide.Analyzers.Utils.{
  arg_names, params_in, identity, line_indent, end_line_of,
}
use githubprojectforissueide.Analyzers.Reports.{report, checked}

abbrev kind_init : Kind → Bool
kind_init (function_def is_async n) = not is_async && text_eq n (codes "__init__")
kind_init _ = false

-- `isinstance(m, ast.FunctionDef) and m.name == "__init__"`
unfoldable pub is_init : Node → Bool
unfolding kind text_eq
is_init n = kind_init (kind n)

unfoldable pub constructor_params : Node → List Text
unfolding arg_names field nodes select text_eq
constructor_params n =
    select (λ t. not (text_eq t (codes "self"))) (params_in n (nodes args))
    ++ params_in n (nodes posonlyargs)
    ++ params_in n (nodes kwonlyargs)

-- What a node assigns to.
unfoldable pub assignment_targets : Node → List Node
unfolding is_assign is_aug_assign is_ann_assign nodes field
assignment_targets n =
    if is_assign n
    then nodes targets n
    else if is_aug_assign n
    then nodes target n
    else if is_ann_assign n && holds (λ v. true) (field value n)
    then nodes target n
    else []

unfoldable pub stores_attr : Text → Node → Bool
unfolding any is_attribute_on text_eq assignment_targets
stores_attr t n = any (is_attribute_on (text_eq t) (codes "self")) (assignment_targets n)

-- `p in stored`
unfoldable pub is_stored_attr : Node → Text → Bool
unfolding any stores_attr walk
is_stored_attr init t = any (stores_attr t) (walk init)

-- `p in read_elsewhere`
unfoldable pub is_read_outside : Node → Node → Text → Bool
unfolding any nodes place is_function is_attribute_on text_eq walk
is_read_outside cls init t =
    any
      (λ m.
        not (identity m == identity init)
        && is_function m
        && any (is_attribute_on (text_eq t) (codes "self")) (walk m))
      (nodes body cls)

unfoldable pub missing_params : Node → Node → List Text
unfolding select constructor_params is_stored_attr is_read_outside
missing_params cls init =
    select (λ p. not (is_stored_attr init p) && is_read_outside cls init p)
      (constructor_params init)

abbrev last_of : List Node → Option Node
last_of [] = none
last_of (n ∷ ns) = elim (last_of ns) [ none ↦ some n | some m ↦ some m ]

-- `", ".join(…)`, and `"\n".join(…)` with a separator.
unfoldable pub join_with : Text → List Text → Text
join_with sep [] = []
join_with sep (t ∷ []) = t
join_with sep (t ∷ u ∷ ts) = t ++ sep ++ join_with sep (u ∷ ts)

unfoldable pub unstored_message : Text → List Text → Text
unfolding join_with
unstored_message cls [] = []
unstored_message cls (p ∷ []) =
    codes "'"
    ++ p
    ++ codes "' is accepted by "
    ++ cls
    ++ codes ".__init__ but never stored as self."
    ++ p
    ++ codes " — self."
    ++ p
    ++ codes " is read elsewhere in "
    ++ cls
    ++ codes ", which will raise AttributeError."
unstored_message cls (p ∷ q ∷ ps) =
    join_with (codes ", ") (map (λ t. codes "'" ++ t ++ codes "'") (p ∷ q ∷ ps))
    ++ codes " are accepted by "
    ++ cls
    ++ codes ".__init__ but never stored on self — each is read as self.<name> elsewhere in "
    ++ cls
    ++ codes ", which will raise AttributeError."

abbrev is_nonempty : List Text → Bool
is_nonempty [] = false
is_nonempty (t ∷ ts) = true

unfoldable pub unstored_finding : Text → List Text → Node → Option Finding
unfolding is_class is_init first_of select nodes missing_params line_at end_line_of line_indent
    join_with unstored_message definition_name report
unstored_finding filename lines cls = do
  guard (is_class cls)
  init ← first_of (select is_init (nodes body cls))
  final ← last_of (nodes body init)
  let missing = missing_params cls init
  guard (is_nonempty missing)
  line ← line_at lines (end_line_of final)
  some (
      report (codes "unstored_constructor_param_checker") filename (end_line_of final) 0
        (codes "runtime") critical (unstored_message (definition_name cls) missing) line
        (line
          ++ codes "\n"
          ++ join_with (codes "\n")
              (map (λ p. line_indent line ++ codes "self." ++ p ++ codes " = " ++ p) missing)))

unfoldable pub detect_unstored_constructor_params :
    (Text → Option Node) → Text → Text → List Finding
unfolding checked filter_map walk splitlines unstored_finding
detect_unstored_constructor_params parse code filename =
    checked parse code
      (λ tree. filter_map (unstored_finding filename (splitlines code)) (walk tree))
