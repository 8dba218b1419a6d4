-- ===== src/Analyzers/Reports.antt =====
-- What the checkers share: the frame that parses the code and walks through the tree, the line that a
-- finding is at, and names with one plain assignment.
use githubprojectforissueide.Prelude.{
  ℕ, ◌==◌, false, ◌&&◌, List, [], ◌∷◌, ◌++◌, Option, none, some, any, if◌then◌else◌,
}
use githubprojectforissueide.Text.{Text, strip}
use githubprojectforissueide.Models.{Finding, Severity, medium}
use githubprojectforissueide.Analyzers.Tree.{Node, field, nodes, walk, targets, value}
use githubprojectforissueide.Analyzers.Utils.{ParentMap, owning_function}
use githubprojectforissueide.Analyzers.Shapes.{is_assign, is_named, filter_map}

-- A finding of a checker: it claims the line that it is at, and has medium confidence.
unfoldable pub report : Text → Text → ℕ → ℕ → Text → Severity → Text → Text → Text → Finding
unfolding strip
report source filename line end_line category severity message text fix = record {
  file = filename;
  line = line;
  end_line = end_line;
  category = category;
  severity = severity;
  message = message;
  bad_code = strip text;
  fix = fix;
  fix_is_deletion = false;
  confidence = medium;
  source = source;
}

-- The findings of which no earlier one, or one in `seen`, has the line.
unfoldable pub once : List ℕ → List Finding → List Finding
unfolding any
once seen [] = []
once seen (f ∷ fs) =
    let found = any (◌==◌ f.line) seen in
    let rest = once (if found then seen else f.line ∷ seen) fs in if found then rest else f ∷ rest

-- `isinstance(node, ast.Assign) and len(node.targets) == 1`, to the name `t`: what is assigned.
unfoldable pub assigned_to : Text → Node → Option Node
unfolding is_assign nodes is_named field
assigned_to t n = elim (nodes targets n) [
  | [] ↦ none
  | target ∷ [] ↦ if is_assign n && is_named t target then field value n else none
  | _ ↦ none
]

-- `assignments[t]`
unfoldable pub assignments : Node → Text → List Node
unfolding assigned_to filter_map walk
assignments tree t = filter_map (assigned_to t) (walk tree)

-- What a name is assigned by the only plain assignment to it. Other ways to give it a value, such as `t += 1`,
-- `t: int = 1`, `t = u = 1`, an unpacking or a loop, do not count, although the docstrings of the checkers say
-- that the name is never reassigned.
unfoldable pub single_assignment : Node → Text → Option Node
unfolding assignments
single_assignment tree t = elim (assignments tree t) [ [] ↦ none | v ∷ [] ↦ some v | _ ↦ none ]

-- `ast.parse(code)`, where a syntax error ends the check with no finding.
unfoldable pub checked : (Text → Option Node) → Text → (Node → List Finding) → List Finding
checked parse code f = elim (parse code) [ none ↦ [] | some tree ↦ f tree ]

-- The findings of some nodes together.
unfoldable pub concat_map {ℓ} : {A : Type ℓ} → (A → List Finding) → List A → List Finding
concat_map f [] = []
concat_map f (a ∷ more) = f a ++ concat_map f more

-- `owning_function(parent_map, node) or tree`
unfoldable pub scope_of : ParentMap → Node → Node → Node
unfolding owning_function
scope_of pm tree n = elim (owning_function pm n) [ none ↦ tree | some f ↦ f ]
