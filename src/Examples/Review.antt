-- ===== src/Examples/Review.antt =====
-- Examples for a review of one file.
use githubprojectforissueide.Prelude.{
  ℕ, ◌+◌, ◌≡◌, ◌≢◌, ◌<◌, ◌≤◌, ◌↔◌, ◌⊎◌, refl, true, false, List, [], ◌∷◌, ◌++◌, none, some, All,
}
use githubprojectforissueide.Text.{Text, codes, splitlines, contains}
use githubprojectforissueide.Text.Words.{normalized}
use githubprojectforissueide.Models.{Finding, finding, warning, completed, degraded, failed}
use githubprojectforissueide.Gate.{decide, approve}
use githubprojectforissueide.Gate.Decision.{NoneCritical}
use githubprojectforissueide.Syntax.{line_at}
use githubprojectforissueide.Review.{Request, llm_results, review_code}
use githubprojectforissueide.Review.Grounding.{is_grounded, is_trustworthy}
use githubprojectforissueide.Review.Agents.{Services, Agent, Checker, dedupe, run_all_agents}
use githubprojectforissueide.Review.Trust.{is_grounded_iff}
use githubprojectforissueide.Review.Duplicates.{
  firsts, NoRepeat, dedupe-firsts, run_all_agents_outcome,
}
use githubprojectforissueide.Prelude.{select}
use githubprojectforissueide.Review.Selected.{found_by}
use githubprojectforissueide.Review.Outcome.{
  review_code_status, review_code-approve, review_code_findings,
}

abbrev name : Text
name = codes "f.py"

abbrev code : Text
code = codes "import os\nx  =  1/n\n"

-- The same place seen twice, by a checker and by a model, and a quotation of code that is not there.
abbrev division : Finding
division = record (finding name 1 (codes "runtime") warning (codes "may divide by zero")) {
  bad_code = codes "x = 1/n";
}

abbrev invented : Finding
invented = record division { line = 2; bad_code = codes "y = 2" }

abbrev checker : Checker
checker c f = division ∷ invented ∷ []

abbrev silent : Agent
silent c f key = ([], true)

abbrev failing : Agent
failing c f key = (division ∷ division ∷ [], false)

abbrev services : Services
services = record {
  python = record { compile = λ c f. none; parses = λ c. true; is_wide_word = λ c. true };
  checkers = checker ∷ [];
  llm_supplement = silent;
  security = failing;
  style = silent;
  test_coverage = silent;
}

abbrev request : Request
request = record {
  code = code;
  filename = name;
  repo = codes "acme/widgets";
  commit_sha = codes "abc";
  include_llm = true;
  use_multi_agent = true;
}

-- The agent that fails degrades the review; what is not in the file is dropped.
degrades : (review_code services request).status ≡ degraded
unfolding review_code
degrades = refl

drops : (review_code services request).findings ≡ division ∷ division ∷ []
unfolding review_code
drops = refl

is_grounded_iff_example : (is_grounded division code ≡ true) ↔ (
    (normalized division.bad_code ≡ [])
    ⊎ ((0 < division.line)
        × ((k : ℕ) × (line : Text) × (line_at (splitlines code) k ≡ some line)
            × (k ≤ division.line + 2)
            × (division.line ≤ k + 2)
            × (contains (normalized division.bad_code) (normalized line) ≡ true))))
is_grounded_iff_example = is_grounded_iff division code

dedupe-firsts_example :
    let fs = division ∷ invented ∷ division ∷ [] in
    (dedupe fs ≡ firsts [] fs) × NoRepeat (dedupe fs)
dedupe-firsts_example = dedupe-firsts (division ∷ invented ∷ division ∷ [])

run_all_agents_outcome_example :
    let r = run_all_agents services code name (codes "acme/widgets:abc") in
    ((r.1 ≡ true) ↔ ((true ≡ true) × (false ≡ true) × (true ≡ true) × (true ≡ true)))
    × All (λ f. is_trustworthy services.python f code ≡ true) r.0
    × NoRepeat r.0
run_all_agents_outcome_example =
    run_all_agents_outcome services code name (codes "acme/widgets:abc")

review_code_status_example :
    let c = services.python.compile code name in
    let succeeded = (llm_results services request).1 in
    let status = (review_code services request).status in
    ((status ≡ failed) ↔ (c ≢ none))
    × ((status ≡ degraded) ↔ ((c ≡ none) × (true ≡ true) × (succeeded ≡ false)))
    × ((status ≡ completed) ↔ ((c ≡ none) × (true ≡ true → succeeded ≡ true)))
review_code_status_example = review_code_status services request

review_code-approve_example : (decide (review_code services request) ≡ approve) ↔ (
    ((services.python.compile code name ≡ none)
      × (true ≡ true → (llm_results services request).1 ≡ true))
    × NoneCritical (review_code services request).findings)
review_code-approve_example = review_code-approve services request

review_code_findings_example :
    let fs = (review_code services request).findings in
    ((extra : List Finding) × (fs
        ≡ select (λ f. is_trustworthy services.python f code) (found_by code name services.checkers)
          ++ extra)
      × (true ≡ false → extra ≡ []))
    × All (λ f. is_trustworthy services.python f code ≡ true) fs
review_code_findings_example = review_code_findings services request refl
