-- ===== src/Review/Agents.antt =====
-- The checkers' registry, src/analyzers/registry.py, and the agents' coordinator,
-- src/agents/coordinator.py.
use githubprojectforissueide.Prelude.{
  ℕ, Bool, true, ◌&&◌, List, [], ◌∷◌, ◌++◌, any, select, ◌==◌, if◌then◌else◌,
}
use githubprojectforissueide.Text.{Text, text_eq}
use githubprojectforissueide.Models.{Finding}
use githubprojectforissueide.Syntax.{Python}
use githubprojectforissueide.Review.Grounding.{is_trustworthy}

-- A checker, of the code and the filename.
abbrev pub Checker : Type 0
Checker = Text → Text → List Finding

-- An agent, of the code, the filename and the canary key: its findings, and whether it succeeded.
abbrev pub Agent : Type 0
Agent = Text → Text → Text → List Finding × Bool

-- What a review calls: the interpreter, the tuple `CHECKERS`, and the four agents.
pub record Services : Type 0 where
  pub python : Python
  pub checkers : List Checker
  pub llm_supplement : Agent
  pub security : Agent
  pub style : Agent
  pub test_coverage : Agent

unfoldable pub run_checkers : Python → Text → Text → List Checker → List Finding
unfolding is_trustworthy select
run_checkers py code filename [] = []
run_checkers py code filename (checker ∷ checkers) =
    select (λ f. is_trustworthy py f code) (checker code filename)
    ++ run_checkers py code filename checkers

unfoldable pub run_deterministic_checkers : Services → Text → Text → List Finding
unfolding run_checkers
run_deterministic_checkers services code filename =
    run_checkers services.python code filename services.checkers

-- `(f.line, f.category)`
abbrev pub key : Finding → ℕ × Text
key f = (f.line, f.category)

unfoldable pub same_key : ℕ × Text → ℕ × Text → Bool
unfolding text_eq
same_key j k = j.0 == k.0 && text_eq j.1 k.1

unfoldable pub dedupe_loop : List (ℕ × Text) → List Finding → List Finding
unfolding any same_key
dedupe_loop seen [] = []
dedupe_loop seen (f ∷ fs) =
    let found = any (same_key (key f)) seen in
    let rest = dedupe_loop (if found then seen else key f ∷ seen) fs in
    if found then rest else f ∷ rest

unfoldable pub dedupe : List Finding → List Finding
unfolding dedupe_loop
dedupe = dedupe_loop []

-- The loop over the agents' results: all findings that are trusted, and whether all succeeded.
unfoldable pub merge_results : Python → Text → List (List Finding × Bool) → List Finding × Bool
unfolding is_trustworthy select
merge_results py code [] = ([], true)
merge_results py code ((findings, succeeded) ∷ results) =
    let (rest, all_succeeded) = merge_results py code results in
    (select (λ f. is_trustworthy py f code) findings ++ rest, succeeded && all_succeeded)

unfoldable pub run_all_agents : Services → Text → Text → Text → List Finding × Bool
unfolding merge_results dedupe
run_all_agents services code filename canary_key =
    let (findings, succeeded) = merge_results services.python code (
      services.llm_supplement code filename canary_key
      ∷ services.security code filename canary_key
      ∷ services.style code filename canary_key
      ∷ services.test_coverage code filename canary_key
      ∷ []) in
    (dedupe findings, succeeded)
