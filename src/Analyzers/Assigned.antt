-- ===== src/Analyzers/Assigned.antt =====
-- Names to which a file has one plain assignment.
use githubprojectforissueide.Prelude.{◌≡◌, refl, List, [], ◌∷◌, none, some, arith}
use githubprojectforissueide.Text.{Text}
use githubprojectforissueide.Analyzers.Tree.{Node}
use githubprojectforissueide.Analyzers.Reports.{assignments, single_assignment}

-- What a name is known by is all that it is assigned.
pub single_assignment_from :
    (tree : Node) (t : Text) (v : Node)
    → single_assignment tree t ≡ some v
    → assignments tree t ≡ v ∷ []
unfolding single_assignment
single_assignment_from tree t v e = go (assignments tree t) e
  where
    go :
        (vs : List Node)
        → (elim vs [ [] ↦ none | w ∷ [] ↦ some w | _ ↦ none ]) ≡ some v
        → vs ≡ v ∷ []
    go [] p = cc
    go (w ∷ []) p = ground arith
    go (w ∷ x ∷ vs) p = cc

pub single_assignment_of :
    (tree : Node) (t : Text) (v : Node)
    → assignments tree t ≡ v ∷ []
    → single_assignment tree t ≡ some v
unfolding single_assignment
single_assignment_of tree t v e = rw (single_assignment, e) refl
