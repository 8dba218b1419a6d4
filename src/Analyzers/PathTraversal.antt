-- ===== src/Analyzers/PathTraversal.antt =====
-- src/analyzers/path_traversal_checker.py
use githubprojectforissueide.Prelude.{
  Bool, not, ◌&&◌, ◌||◌, List, [], ◌∷◌, ◌++◌, Option, none, some, any, if◌then◌else◌, ◌>>=◌, ◌>>◌,
  guard, drop,
}
use githubprojectforissueide.Text.{Text, codes, text_eq, splitlines, is_empty}
use githubprojectforissueide.Models.{Finding, critical}
use githubprojectforissueide.Syntax.{line_at}
use githubprojectforissueide.Analyzers.Tree.{
  Node, field, nodes, walk, first_of, targets, value, comparators, func, args,
}
use githubprojectforissueide.Analyzers.Shapes.{
  holds, one_of, filter_map, name_of, is_named, attr_of, is_attribute_on, is_call, calls_name,
  is_assign, tests_membership,
}
use githubprojectforissueide.Analyzers.Utils.{
  ParentMap, build_parent_map, owning_function, param_names, line_of,
}
use githubprojectforissueide.Analyzers.Reports.{report, once, checked}

abbrev guard_func_names : List Text
guard_func_names =
    codes "abspath" ∷ codes "realpath" ∷ codes "normpath" ∷ codes "secure_filename" ∷ []

-- A call `os.path.join(…)`.
unfoldable pub is_os_path_join : Node → Bool
unfolding is_call field attr_of text_eq is_attribute_on
is_os_path_join n =
    is_call n
    && holds
        (λ f.
          holds (text_eq (codes "join")) (attr_of f)
          && holds (is_attribute_on (text_eq (codes "path")) (codes "os")) (field value f))
        (field func n)

-- The name of an argument behind the first that is a parameter, or the empty text.
unfoldable pub first_param : List Text → List Node → Text
unfolding name_of one_of
first_param params [] = []
first_param params (a ∷ more) =
    let rest = first_param params more in
    elim (name_of a) [ none ↦ rest | some t ↦ if one_of params t then t else rest ]

unfoldable pub join_uses_param : Node → List Text → Text
unfolding first_param nodes
join_uses_param n params = first_param params (drop 1 (nodes args n))

unfoldable pub join_assigned : Text → Node → Option Node
unfolding is_assign any nodes is_named field is_os_path_join
join_assigned t n = do
  guard (is_assign n && any (is_named t) (nodes targets n))
  v ← field value n
  guard (is_os_path_join v)
  some v

unfoldable pub join_call_assigned_to : Node → Text → Option Node
unfolding join_assigned filter_map walk first_of
join_call_assigned_to scope t = first_of (filter_map (join_assigned t) (walk scope))

-- The call of `os.path.join` that makes the path, in place or assigned to its name.
unfoldable pub join_call : Node → Node → Option Node
unfolding is_os_path_join name_of join_call_assigned_to
join_call scope path =
    if is_os_path_join path then some path else name_of path >>= join_call_assigned_to scope

-- The last part of the name of what is called.
unfoldable pub called_name : Node → Text
unfolding attr_of name_of field
called_name n = elim (field func n) [
  | none ↦ []
  | some f ↦ elim (attr_of f) [ some t ↦ t | none ↦ elim (name_of f) [ some t ↦ t | none ↦ [] ] ]
]

unfoldable pub guards_path : Text → Node → Bool
unfolding tests_membership any nodes is_named is_call one_of called_name
guards_path t n =
    (tests_membership (codes "..") n && any (is_named t) (nodes comparators n))
    || (is_call n && one_of guard_func_names (called_name n))

unfoldable pub traversal_finding : ParentMap → Text → List Text → Node → Option Finding
unfolding calls_name nodes first_of owning_function join_call param_names join_uses_param is_empty
    guards_path any walk line_of line_at report
traversal_finding pm filename lines n = do
  guard (calls_name (codes "open") n)
  path ← first_of (nodes args n)
  scope ← owning_function pm n
  join ← join_call scope path
  let used = join_uses_param join (param_names scope)
  guard (not (is_empty used))
  guard (not (any (guards_path used) (walk scope)))
  line ← line_at lines (line_of n)
  some (
      report (codes "path_traversal_checker") filename (line_of n) 0 (codes "security") critical
        (codes "open(os.path.join(..., "
          ++ used
          ++ codes "), ...) builds a file path from '"
          ++ used
          ++ codes
              "', a caller-controlled parameter, with no check against '..' path segments — a malicious "
          ++ codes
              "value can escape the intended directory (path traversal), reading or writing files "
          ++ codes "anywhere the process can reach.")
        line [])

unfoldable pub detect_path_traversal : (Text → Option Node) → Text → Text → List Finding
unfolding checked once filter_map walk splitlines build_parent_map traversal_finding
detect_path_traversal parse code filename = checked parse code (λ tree.
    once [] (
      filter_map (traversal_finding (build_parent_map tree) filename (splitlines code))
        (walk tree)))
