-- ===== src/Analyzers/DictKeys.antt =====
-- src/analyzers/dict_key_checker.py. A set of names is a list, and a dictionary a list of its entries in the
-- order in which the keys come up. The nodes of a walk are distinct, so that no function is met again.
pub mod Missing
pub mod Guards
pub mod Keyed
pub mod Listed
use githubprojectforissueide.Prelude.{
  ℕ, ◌-◌, Bool, true, not, ◌&&◌, ◌||◌, List, [], ◌∷◌, ◌++◌, Option, none, some, any, length, map,
  if◌then◌else◌, ◌>>=◌, ◌>>◌, guard, ltb, leb,
}
use githubprojectforissueide.Text.{Text, codes, text_eq, splitlines, join_lines}
use githubprojectforissueide.Models.{Finding, critical, warning}
use githubprojectforissueide.Syntax.{line_at}
use githubprojectforissueide.Analyzers.Tree.{
  Node, place, field, nodes, entries, walk, call, name, test, targets, value, comparators, func,
  slice, keys,
}
use githubprojectforissueide.Analyzers.Shapes.{
  holds, one_of, filter_map, is_function, name_of, is_named, attr_of, is_call, calls_on, string_of,
  is_subscript, is_assign, is_return, is_dict, definition_name, tests_membership,
}
use githubprojectforissueide.Analyzers.Utils.{
  ParentMap, build_parent_map, param_names, catches, line_indent, owning_statement_line, line_of,
  end_line_of,
}
use githubprojectforissueide.Analyzers.Reports.{
  report, once, single_assignment, checked, concat_map,
}
use githubprojectforissueide.Syntax.{slice as cut}
use githubprojectforissueide.Analyzers.IndexGuard.{is_owned_by}
use githubprojectforissueide.Analyzers.UnstoredParams.{join_with}

-- A test for the key, a call of `get`, or a handler for its absence.
unfoldable pub guards_key : Text → Text → Node → Bool
unfolding tests_membership any nodes is_named calls_on text_eq catches
guards_key t key n =
    (tests_membership key n && any (is_named t) (nodes comparators n))
    || calls_on (text_eq (codes "get")) t n
    || catches (codes "KeyError" ∷ codes "Exception" ∷ []) n

unfoldable pub key_guarded : Node → Text → Text → Bool
unfolding any walk guards_key
key_guarded scope t key = any (guards_key t key) (walk scope)

-- A call `….json()`
unfoldable pub calls_json : Node → Bool
unfolding is_call field attr_of text_eq
calls_json n = is_call n && holds (λ f. holds (text_eq (codes "json")) (attr_of f)) (field func n)

unfoldable pub returns_json : Node → Bool
unfolding is_return field calls_json
returns_json n = is_return n && holds calls_json (field value n)

unfoldable pub json_returning_name : Node → Option Text
unfolding is_function any returns_json walk definition_name
json_returning_name n =
    if is_function n && any returns_json (walk n) then some (definition_name n) else none

unfoldable pub json_returning_function_names : Node → List Text
unfolding filter_map json_returning_name walk
json_returning_function_names tree = filter_map json_returning_name (walk tree)

-- A call of one of some functions, by its name.
unfoldable pub calls_one_of : List Text → Node → Bool
unfolding is_call field name_of one_of
calls_one_of texts n = is_call n && holds (λ f. holds (one_of texts) (name_of f)) (field func n)

-- The name that is assigned a response, with the first and the last line of the assignment.
unfoldable pub json_derived : List Text → Node → Option (Text × (ℕ × ℕ))
unfolding is_assign nodes name_of field calls_json calls_one_of line_of end_line_of
json_derived wrappers n = elim (nodes targets n) [
  | [] ↦ none
  | t ∷ [] ↦ do
    guard (is_assign n)
    id ← name_of t
    v ← field value n
    guard (calls_json v || calls_one_of wrappers v)
    some (id, (line_of n, end_line_of n))
  | _ ↦ none
]

unfoldable pub json_derived_locals : Node → List Text → List (Text × (ℕ × ℕ))
unfolding filter_map json_derived walk
json_derived_locals scope wrappers = filter_map (json_derived wrappers) (walk scope)

-- The last entry of a name.
unfoldable pub last_entry : {A : Type 0} → Text → List (Text × A) → Option A
unfolding text_eq
last_entry t [] = none
last_entry t ((u, a) ∷ more) = elim (last_entry t more) [
  | some b ↦ some b
  | none ↦ if text_eq u t then some a else none
]

-- The keys that are texts, unless a key is anything else.
unfoldable pub literal_keys : List (Option Node) → Option (List Text)
unfolding string_of
literal_keys [] = some []
literal_keys (none ∷ ns) = none
literal_keys (some n ∷ ns) = do k ← string_of n; ks ← literal_keys ns; some (k ∷ ks)

unfoldable pub dict_literal_keys : Node → Option (List Text)
unfolding literal_keys entries
dict_literal_keys n = literal_keys (entries keys n)

-- The keys of a literal dictionary, in place or under a name, and how it is described.
unfoldable pub known_keys : Node → Node → Option (List Text × Text)
unfolding is_dict dict_literal_keys name_of single_assignment
known_keys tree n =
    if is_dict n then dict_literal_keys n >>= (λ ks. some (ks, codes "This dict literal")) else do
      t ← name_of n
      v ← single_assignment tree t
      guard (is_dict v)
      ks ← dict_literal_keys v
      some (ks, codes "'" ++ t ++ codes "'")

-- `repr` is that of a text.
unfoldable pub missing_key_finding :
    (Text → Text) → ParentMap → Node → Text → List Text → Node → Option Finding
unfolding is_subscript field known_keys string_of one_of owning_statement_line line_at line_indent
    report
missing_key_finding repr pm tree filename lines n = do
  guard (is_subscript n)
  indexed ← field value n
  known ← known_keys tree indexed
  key_node ← field slice n
  key ← string_of key_node
  guard (not (one_of known.0 key))
  line ← line_at lines (owning_statement_line pm n)
  some (
      report (codes "dict_key_checker") filename (owning_statement_line pm n) 0 (codes "runtime")
        critical
        (known.1
          ++ codes " does not have the key '"
          ++ key
          ++ codes "' — guaranteed KeyError every time this line runs, not just a possible one.")
        line (line_indent line ++ codes "raise KeyError(" ++ repr key ++ codes ")\n" ++ line))

unfoldable pub missing_key_findings :
    (Text → Text) → ParentMap → Node → Text → List Text → List Finding
unfolding once filter_map missing_key_finding walk
missing_key_findings repr pm tree filename lines =
    once [] (filter_map (missing_key_finding repr pm tree filename lines) (walk tree))

-- A name whose content is not known in a function: a parameter, or a response.
unfoldable pub is_risky : Node → List (Text × (ℕ × ℕ)) → Text → Bool
unfolding one_of param_names last_entry
is_risky scope locals t = one_of (param_names scope) t || holds (λ s. true) (last_entry t locals)

unfoldable pub unguarded_key :
    ParentMap → Node → List (Text × (ℕ × ℕ)) → Node → Option (Text × Text)
unfolding is_subscript field name_of is_risky is_owned_by string_of key_guarded
unguarded_key pm scope locals n = do
  guard (is_subscript n)
  indexed ← field value n
  t ← name_of indexed
  guard (is_risky scope locals t)
  guard (is_owned_by pm scope n)
  key_node ← field slice n
  key ← string_of key_node
  guard (not (key_guarded scope t key))
  some (t, key)

-- `by_var[t].append(key)`, unless it is there.
unfoldable pub add_key : Text → Text → List (Text × List Text) → List (Text × List Text)
unfolding text_eq one_of
add_key t key [] = (t, key ∷ []) ∷ []
add_key t key ((u, ks) ∷ more) =
    let rest = add_key t key more in
    if text_eq u t then (u, if one_of ks key then ks else ks ++ key ∷ []) ∷ more else (u, ks) ∷ rest

unfoldable pub keys_by_name : List (Text × List Text) → List (Text × Text) → List (Text × List Text)
unfolding add_key
keys_by_name by_var [] = by_var
keys_by_name by_var ((t, key) ∷ more) = keys_by_name (add_key t key by_var) more

-- Where the guard of a name goes: behind the `def`, or behind the assignment of a response.
unfoldable pub anchor : Node → List (Text × (ℕ × ℕ)) → Text → Option (ℕ × ℕ)
unfolding one_of param_names line_of last_entry
anchor scope locals t =
    if one_of (param_names scope) t
    then some (line_of scope, line_of scope)
    else last_entry t locals

unfoldable pub key_message : Bool → Text → List Text → Text
unfolding join_with
key_message is_param t ks =
    codes "'"
    ++ t
    ++ codes "' is accessed with key"
    ++ (if ltb 1 (length ks) then codes "s" else [])
    ++ codes " "
    ++ join_with (codes ", ") (map (λ k. codes "'" ++ k ++ codes "'") ks)
    ++ codes " with no existence check — raises KeyError if "
    ++ (if is_param
        then codes "the caller doesn't include them"
        else codes "the response doesn't include it")
    ++ codes "."

unfoldable pub key_check : (Text → Text) → Text → Text → List Text → Text
unfolding join_with
key_check repr indent_text t ks =
    indent_text
    ++ codes "if "
    ++ join_with (codes " or ") (map (λ k. codes "\"" ++ k ++ codes "\" not in " ++ t) ks)
    ++ codes ":\n"
    ++ indent_text
    ++ codes "    raise KeyError(f\"'"
    ++ t
    ++ codes "' is missing required key(s): {[k for k in (["
    ++ join_with (codes ", ") (map repr ks)
    ++ codes "]) if k not in "
    ++ t
    ++ codes "]}\")"

unfoldable pub key_finding :
    (Text → Text)
    → Text
    → List Text
    → Node
    → List (Text × (ℕ × ℕ))
    → Text × List Text
    → Option Finding
unfolding anchor line_at line_indent one_of param_names key_message key_check join_lines report
key_finding repr filename lines scope locals (t, ks) = do
  span ← anchor scope locals t
  line ← line_at lines span.0
  guard (leb span.1 (length lines))
  let is_param = one_of (param_names scope) t
  let indent_text = line_indent line ++ (if is_param then codes "    " else [])
  some (
      report (codes "dict_key_checker") filename span.0 (if ltb span.0 span.1 then span.1 else 0)
        (codes "runtime") warning (key_message is_param t ks) line
        (join_lines (cut (span.0 - 1) span.1 lines)
          ++ codes "\n"
          ++ key_check repr indent_text t ks))

unfoldable pub key_findings :
    (Text → Text) → ParentMap → List Text → Text → List Text → Node → List Finding
unfolding is_function json_derived_locals filter_map key_finding keys_by_name unguarded_key walk
key_findings repr pm wrappers filename lines scope =
    let locals = json_derived_locals scope wrappers in
    if is_function scope
    then filter_map (key_finding repr filename lines scope locals)
        (keys_by_name [] (filter_map (unguarded_key pm scope locals) (walk scope)))
    else []

unfoldable pub detect_unguarded_dict_access :
    (Text → Option Node) → (Text → Text) → Text → Text → List Finding
unfolding checked missing_key_findings concat_map key_findings json_returning_function_names walk
    splitlines build_parent_map
detect_unguarded_dict_access parse repr code filename = checked parse code (λ tree.
    missing_key_findings repr (build_parent_map tree) tree filename (splitlines code)
    ++ concat_map
        (key_findings repr (build_parent_map tree) (json_returning_function_names tree) filename
          (splitlines code))
        (walk tree))
