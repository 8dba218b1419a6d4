-- ===== src/Analyzers/NoneAttribute.antt =====
-- src/analyzers/none_attribute_checker.py
use githubprojectforissueide.Prelude.{
  Bool, true, false, not, ◌&&◌, ◌||◌, List, [], ◌∷◌, ◌++◌, Option, none, some, any, if◌then◌else◌,
  ◌>>=◌, ◌>>◌, guard,
}
use githubprojectforissueide.Text.{Text, codes, text_eq, splitlines, is_empty}
use githubprojectforissueide.Models.{Finding, warning}
use githubprojectforissueide.Syntax.{line_at}
use githubprojectforissueide.Analyzers.Tree.{
  Node, Kind, Comparison, kind, field, nodes, walk, same, not_same, test, body, targets, value,
  left, func, args, names, alias, import_stmt,
}
use githubprojectforissueide.Analyzers.Shapes.{
  holds, one_of, filter_map, is_function, name_of, is_named, attr_of, is_attribute_on, is_call,
  comparisons_of, is_if, is_assign, before_dot,
}
use githubprojectforissueide.Analyzers.Utils.{catches, line_indent, line_of}
use githubprojectforissueide.Analyzers.Reports.{report, checked, concat_map}

abbrev alias_module : Kind → Option Text
alias_module (alias n (some t)) = some t
alias_module (alias n none) = some (before_dot n)
alias_module _ = none

abbrev kind_is_import : Kind → Bool
kind_is_import import_stmt = true
kind_is_import _ = false

-- `ast.Import` with an alias of which the module is called `t`.
unfoldable pub imports_as : Text → Node → Bool
unfolding kind any nodes text_eq before_dot
imports_as t n =
    kind_is_import (kind n) && any (λ a. holds (text_eq t) (alias_module (kind a))) (nodes names n)

-- `t in imported_modules`
unfoldable pub is_imported_module : Node → Text → Bool
unfolding any imports_as walk
is_imported_module tree t = any (imports_as t) (walk tree)

abbrev is_single : List Node → Bool
is_single (n ∷ []) = true
is_single _ = false

-- A call that may yield `None`, described; the empty text for any other node.
unfoldable pub is_none_returning_call : Node → Node → Text
unfolding is_call field attr_of text_eq nodes name_of is_imported_module is_attribute_on one_of
is_none_returning_call tree n = elim (field func n) [
  | none ↦ []
  | some f ↦
      if not (is_call n)
      then []
      else if holds (text_eq (codes "get")) (attr_of f) && is_single (nodes args n)
      then (if holds (λ v. holds (is_imported_module tree) (name_of v)) (field value f)
          then []
          else codes "dict.get(key) with no default")
      else if is_attribute_on (one_of (codes "match" ∷ codes "search" ∷ [])) (codes "re") f
      then elim (attr_of f) [ none ↦ [] | some a ↦ codes "re." ++ a ++ codes "(...)" ]
      else []
]

abbrev is_identity : Comparison → Bool
is_identity same = true
is_identity not_same = true
is_identity _ = false

unfoldable pub guards_none : Text → Node → Bool
unfolding is_if is_named field any comparisons_of catches
guards_none t n =
    (is_if n
      && holds
          (λ e.
            is_named t e
            || (holds (is_named t) (field left e) && holds (any is_identity) (comparisons_of e)))
          (field test n))
    || catches (codes "AttributeError" ∷ codes "Exception" ∷ []) n

unfoldable pub attr_access_exists : Node → Text → Bool
unfolding any walk is_attribute_on
attr_access_exists scope t = any (is_attribute_on (λ a. true) t) (walk scope)

unfoldable pub single_name_target : Node → Option Text
unfolding is_assign nodes name_of
single_name_target n = elim (nodes targets n) [
  | [] ↦ none
  | t ∷ [] ↦ if is_assign n then name_of t else none
  | _ ↦ none
]

unfoldable pub none_finding : Node → Text → List Text → Node → Node → Option Finding
unfolding single_name_target field is_none_returning_call is_empty attr_access_exists guards_none
    any walk line_of line_at line_indent report
none_finding tree filename lines scope statement = do
  t ← single_name_target statement
  assigned ← field value statement
  let shape = is_none_returning_call tree assigned
  guard (not (is_empty shape))
  guard (attr_access_exists scope t)
  guard (not (any (guards_none t) (walk scope)))
  line ← line_at lines (line_of statement)
  some (
      report (codes "none_attribute_checker") filename (line_of statement) 0 (codes "runtime")
        warning
        (codes "'"
          ++ t
          ++ codes "' comes from "
          ++ shape
          ++ codes
              ", which returns None when nothing is found, but is accessed via attribute later with no "
          ++ codes "None check — raises AttributeError.")
        line
        (line
          ++ codes "\n"
          ++ line_indent line
          ++ codes "if "
          ++ t
          ++ codes " is None:\n"
          ++ line_indent line
          ++ codes "    raise AttributeError(f\"'"
          ++ t
          ++ codes "' was None ("
          ++ shape
          ++ codes " found nothing)\")"))

-- The statements of a function's own body.
unfoldable pub none_findings : Node → Text → List Text → Node → List Finding
unfolding is_function filter_map none_finding nodes
none_findings tree filename lines scope =
    if is_function scope
    then filter_map (none_finding tree filename lines scope) (nodes body scope)
    else []

unfoldable pub detect_unguarded_none_attribute_access :
    (Text → Option Node) → Text → Text → List Finding
unfolding checked concat_map none_findings walk splitlines
detect_unguarded_none_attribute_access parse code filename =
    checked parse code
      (λ tree. concat_map (none_findings tree filename (splitlines code)) (walk tree))
