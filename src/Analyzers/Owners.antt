-- ===== src/Analyzers/Owners.antt =====
-- What the loops of src/analyzers/_ast_utils.py that follow a parent map upwards find.
use githubprojectforissueide.Prelude.{
  ℕ, zero, suc, ◌<◌, ◌≡◌, refl, ap, Option, some, none, arith, Bool-cases, if◌then◌else◌, inl, inr,
}
use githubprojectforissueide.Analyzers.Tree.{Node, place}
use githubprojectforissueide.Analyzers.Shapes.{is_function, is_statement}
use githubprojectforissueide.Analyzers.Utils.{
  build_parent_map, owner_loop, owning_function, statement_loop, owning_statement_line, or_else,
  line_of,
}
use githubprojectforissueide.Analyzers.Paths.{
  Under, here, down, steps, HasIdentities, parent_of-child, parent_of-root, steps-lt-depth,
}

-- The last function that a path passes above its end.
unfoldable pub enclosing_function : {root n : Node} → Under root n → Option Node
enclosing_function here = none
enclosing_function (down {p} u m) = if is_function p then some p else enclosing_function u

-- The last statement that a path passes, its end included, or else its start.
unfoldable pub enclosing_statement : {root n : Node} → Under root n → Node
enclosing_statement {root} here = root
enclosing_statement {n} (down u m) = if is_statement n then n else enclosing_statement u

owner_loop_lem :
    {root n : Node} (d : HasIdentities root) (fuel : ℕ) (u : Under root n)
    → steps u < fuel
    → owner_loop fuel (build_parent_map root) n ≡ enclosing_function u
unfolding owner_loop enclosing_function steps
owner_loop_lem d zero u h = absurd (omega arith)
owner_loop_lem {root} d (suc fuel) here h = rw (owner_loop, parent_of-root root d) refl
owner_loop_lem {root} {n} d (suc fuel) (down {p} u m) h = elim (Bool-cases (is_function p)) [
  | inl found ↦ rw (owner_loop, parent_of-child root p n d u m, found) refl
  | inr on ↦
      rw (owner_loop, parent_of-child root p n d u m, on) (owner_loop_lem d fuel u (omega arith))
]

-- In a tree whose nodes have an identity each, `owning_function` ends, and yields the innermost function
-- around a node: the last one that the path to the node passes above it, if there is one.
pub owning_function-enclosing :
    (root n : Node) (u : Under root n)
    → HasIdentities root
    → owning_function (build_parent_map root) n ≡ enclosing_function u
unfolding owning_function
owning_function-enclosing root n u d =
    owner_loop_lem d (build_parent_map root).depth u (steps-lt-depth u)

statement_loop_lem :
    {root n : Node} (d : HasIdentities root) (fuel : ℕ) (u : Under root n)
    → steps u < fuel
    → statement_loop fuel (build_parent_map root) n ≡ enclosing_statement u
unfolding statement_loop enclosing_statement steps
statement_loop_lem d zero u h = absurd (omega arith)
statement_loop_lem {root} d (suc fuel) here h = elim (Bool-cases (is_statement root)) [
  | inl found ↦ rw (statement_loop, found) refl
  | inr on ↦ rw (statement_loop, on, parent_of-root root d) refl
]
statement_loop_lem {root} {n} d (suc fuel) (down {p} u m) h = elim (Bool-cases (is_statement n)) [
  | inl found ↦ rw (statement_loop, found) refl
  | inr on ↦
      rw (statement_loop, on, parent_of-child root p n d u m)
        (statement_loop_lem d fuel u (omega arith))
]

-- In a tree whose nodes have an identity each, `owning_statement_line` ends, and yields the line of the
-- innermost statement around a node, or at it; where there is none, that of the root, or of the node.
pub owning_statement_line-enclosing :
    (root n : Node) (u : Under root n)
    → HasIdentities root
    → owning_statement_line (build_parent_map root) n
      ≡ or_else (place (enclosing_statement u)).lineno (line_of n)
unfolding owning_statement_line
owning_statement_line-enclosing root n u d =
    ap (λ s. or_else (place s).lineno (line_of n))
      (statement_loop_lem d (build_parent_map root).depth u (steps-lt-depth u))
