-- ===== src/Examples/Accesses.antt =====
-- Examples for accesses by index and by key, src/analyzers/index_guard_checker.py and dict_key_checker.py.
use githubprojectforissueide.Prelude.{ℕ, ◌≤◌, ◌≡◌, ◌↔◌, refl, true, false, [], ◌∷◌, some, List}
use githubprojectforissueide.Text.{Text, codes, splitlines}
use githubprojectforissueide.Analyzers.Tree.{
  Node, end, child, module_root, function_def, return_stmt, constant, integer, arguments, arg, name,
  assign, body, args, value, walk, targets, subscript, slice, list_display, elts, dict_display,
  keys, values, string, levels_below, concat, aug_assign, target, bin_op, div, left, right,
}
use githubprojectforissueide.Analyzers.Utils.{ParentMap, build_parent_map}
use githubprojectforissueide.Analyzers.Paths.{In, Distinct}
use githubprojectforissueide.Analyzers.Once.{lines_of}
use githubprojectforissueide.Analyzers.Shapes.{filter_map}
use githubprojectforissueide.Analyzers.IndexGuard.{
  detect_unguarded_index_access, literal_out_of_bounds_findings, max_indices,
}
use githubprojectforissueide.Analyzers.IndexGuard.OutOfBounds.{
  IsOutside, literal_out_of_bounds_findings_lines,
}
use githubprojectforissueide.Analyzers.IndexGuard.Largest.{
  UnguardedIndex, unguarded_accesses, max_indices_largest,
}
use githubprojectforissueide.Analyzers.DictKeys.{
  detect_unguarded_dict_access, missing_key_findings, keys_by_name, unguarded_key,
}
use githubprojectforissueide.Analyzers.DictKeys.Missing.{MissesKey, missing_key_findings_lines}
use githubprojectforissueide.Analyzers.DictKeys.Listed.{
  UnguardedKey, unguarded_keys, keys_by_name_iff,
}
use githubprojectforissueide.Analyzers.DictKeys.Keyed.{OneEach, Lists}
use githubprojectforissueide.Analyzers.Names.{Unrepeated, names_of}
use githubprojectforissueide.Analyzers.Division.{detect_unguarded_division}
use githubprojectforissueide.Examples.Analyzers.{at_line}

-- def g(p):
--     q = [1, 2][5]
--     r = {"a": 1}["b"]
--     return p[3]["c"]
abbrev accesses_code : Text
accesses_code =
    codes "def g(p):\n    q = [1, 2][5]\n    r = {\"a\": 1}[\"b\"]\n    return p[3][\"c\"]\n"

abbrev number : ℕ → ℕ → ℕ → Node
number i line n = at_line i line (constant (integer n)) end

abbrev text : ℕ → ℕ → Text → Node
text i line t = at_line i line (constant (string t)) end

abbrev out_of_bounds : Node
out_of_bounds = at_line 24 2 subscript (
    child value
      (at_line 25 2 list_display (child elts (number 26 2 1) (child elts (number 27 2 2) end)))
      (child slice (number 28 2 5) end))

abbrev missing_key : Node
missing_key = at_line 34 3 subscript (
    child value
      (at_line 35 3 dict_display
        (child keys (text 36 3 (codes "a")) (child values (number 37 3 1) end)))
      (child slice (text 38 3 (codes "b")) end))

abbrev accesses_function : Node
accesses_function = at_line 11 1 (function_def false (codes "g")) (
    child args (at_line 12 1 arguments (child args (at_line 13 1 (arg (codes "p")) end) end)) (
      child body
        (at_line 22 2 assign (
          child targets (at_line 23 2 (name (codes "q") true) end) (child value out_of_bounds end)))
        (child body
          (at_line 32 3 assign (
            child targets (at_line 33 3 (name (codes "r") true) end) (child value missing_key end)))
          (child body
            (at_line 42 4 return_stmt (
              child value
                (at_line 43 4 subscript (
                  child value
                    (at_line 44 4 subscript (
                      child value (at_line 45 4 (name (codes "p") false) end)
                        (child slice (number 46 4 3) end)))
                    (child slice (text 47 4 (codes "c")) end)))
                end))
            end))))

abbrev accesses : Node
accesses = at_line 10 0 module_root (child body accesses_function end)

abbrev accesses_map : ParentMap
accesses_map = build_parent_map accesses

index_reported :
    lines_of (detect_unguarded_index_access (λ t. some accesses) accesses_code (codes "g.py"))
    ≡ 2 ∷ 1 ∷ []
unfolding detect_unguarded_index_access
index_reported = refl

key_reported :
    lines_of
      (detect_unguarded_dict_access (λ t. some accesses) (λ t. t) accesses_code (codes "g.py"))
    ≡ 3 ∷ []
unfolding detect_unguarded_dict_access
key_reported = refl

literal_out_of_bounds_findings_lines_example :
    Distinct (
      lines_of (literal_out_of_bounds_findings accesses_map accesses [] (splitlines accesses_code)))
    × ((k : ℕ)
        → In k (
            lines_of
              (literal_out_of_bounds_findings accesses_map accesses [] (splitlines accesses_code)))
          ↔ ((n : Node) × In n (walk accesses)
              × IsOutside accesses_map accesses (splitlines accesses_code) k n))
literal_out_of_bounds_findings_lines_example =
    literal_out_of_bounds_findings_lines accesses_map accesses [] (splitlines accesses_code)

missing_key_findings_lines_example :
    Distinct (
      lines_of (
        missing_key_findings (λ (t : Text). t) accesses_map accesses [] (splitlines accesses_code)))
    × ((k : ℕ)
        → In k (
            lines_of (
              missing_key_findings
                (λ (t : Text). t)
                accesses_map
                accesses
                []
                (splitlines accesses_code)))
          ↔ ((n : Node) × In n (walk accesses)
              × MissesKey accesses_map accesses (splitlines accesses_code) k n))
missing_key_findings_lines_example =
    missing_key_findings_lines (λ (t : Text). t) accesses_map accesses [] (splitlines accesses_code)

max_indices_largest_example :
    let guards = max_indices [] (unguarded_accesses accesses_map accesses_function) in
    Unrepeated (names_of guards)
    × ((t : Text) (j : ℕ × Text)
        → In (t, j) guards
        → (n : Node) × In n (walk accesses_function)
          × UnguardedIndex accesses_map accesses_function t j n)
    × ((t : Text) (i : ℕ × Text) (n : Node)
        → In n (walk accesses_function)
        → UnguardedIndex accesses_map accesses_function t i n
        → (j : ℕ × Text) × In (t, j) guards × (i.0 ≤ j.0))
max_indices_largest_example = max_indices_largest accesses_map accesses_function

-- x = 0
-- x += 1
-- y = 1 / x
abbrev increased : Node
increased = at_line 70 0 module_root (
    child body
      (at_line 71 1 assign (
        child targets (at_line 72 1 (name (codes "x") true) end) (child value (number 73 1 0) end)))
      (child body
        (at_line 74 2 aug_assign (
          child target (at_line 75 2 (name (codes "x") true) end)
            (child value (number 76 2 1) end)))
        (child body
          (at_line 77 3 assign (
            child targets (at_line 78 3 (name (codes "y") true) end) (
              child value
                (at_line 79 3 (bin_op div) (
                  child left (number 80 3 1)
                    (child right (at_line 81 3 (name (codes "x") false) end) end)))
                end)))
          end)))

-- A name that gets another value by `+=` is taken for zero.
increased_reported :
    lines_of
      (detect_unguarded_division (λ t. some increased) (codes "x = 0\nx += 1\ny = 1 / x\n") [])
    ≡ 3 ∷ []
unfolding detect_unguarded_division
increased_reported = refl

-- d = {}
-- d["b"] = 2
abbrev filled : Node
filled = at_line 90 0 module_root (
    child body
      (at_line 91 1 assign (
        child targets (at_line 92 1 (name (codes "d") true) end)
          (child value (at_line 93 1 dict_display end) end)))
      (child body
        (at_line 94 2 assign (
          child targets
            (at_line 95 2 subscript (
              child value (at_line 96 2 (name (codes "d") false) end)
                (child slice (text 97 2 (codes "b")) end)))
            (child value (number 98 2 2) end)))
        end))

-- An assignment to a new key is reported as a missing key.
filled_reported :
    lines_of
      (detect_unguarded_dict_access (λ t. some filled) (λ t. t) (codes "d = {}\nd[\"b\"] = 2\n") [])
    ≡ 2 ∷ []
unfolding detect_unguarded_dict_access
filled_reported = refl

-- A response is assigned at line 4, and accessed by a key.
abbrev response : Node
response = at_line 60 4 (function_def false (codes "h")) (
    child body
      (at_line 61 5 subscript (
        child value (at_line 62 5 (name (codes "reply") false) end)
          (child slice (text 63 5 (codes "city")) end)))
      end)

keys_by_name_iff_example :
    let locals : List (Text × (ℕ × ℕ)) = (codes "reply", (4, 4)) ∷ [] in
    let guards = keys_by_name [] (unguarded_keys (build_parent_map response) response locals) in
    OneEach guards
    × ((t key : Text)
        → Lists t key guards ↔ (
            (n : Node) × In n (walk response)
            × UnguardedKey (build_parent_map response) response locals t key n))
keys_by_name_iff_example =
    keys_by_name_iff (build_parent_map response) response ((codes "reply", (4, 4)) ∷ [])

key_listed :
    unguarded_keys (build_parent_map response) response ((codes "reply", (4, 4)) ∷ [])
    ≡ (codes "reply", codes "city") ∷ []
unfolding unguarded_key filter_map walk levels_below concat build_parent_map
key_listed = refl
