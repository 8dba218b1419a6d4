-- ===== src/Review.antt =====
-- A review of one file: `review_code` of src/core/orchestrator.py, with the checkers' registry, the
-- agents' coordinator and the trust layer that it calls.
pub mod Grounding
pub mod Agents
pub mod Trust
pub mod Selected
pub mod Duplicates
pub mod Outcome
use githubprojectforissueide.Prelude.{
  ℕ, Bool, true, false, not, List, [], ◌∷◌, ◌++◌, Option, none, some, count, select, length,
  if◌then◌else◌,
}
use githubprojectforissueide.Text.{Text, codes, show}
use githubprojectforissueide.Models.{
  Finding, ReviewStatus, completed, degraded, failed, ReviewResult, is_completed, is_critical,
  status_value,
}
use githubprojectforissueide.Syntax.{Python, SyntaxError}
use githubprojectforissueide.Syntax.Collect.{collect_syntax_error_findings}
use Grounding.{is_trustworthy}
use Agents.{Services, run_deterministic_checkers, run_all_agents}

-- The summary of a review that completed.
unfoldable pub completed_summary : List Finding → Text
unfolding show count
completed_summary [] = codes "No issues found."
completed_summary (f ∷ fs) =
    show (length (f ∷ fs))
    ++ (codes " issue(s) found ("
        ++ (show (count (λ f. is_critical f.severity) (f ∷ fs)) ++ codes " critical)."))

unfoldable pub build_summary : List Finding → ReviewStatus → Text
unfolding show completed_summary status_value
build_summary findings status =
    if not (is_completed status)
    then codes "Review "
      ++ (status_value status
          ++ (codes " — "
              ++ (show (length findings)
                  ++ codes " finding(s) from the part of the analysis that did complete.")))
    else completed_summary findings

-- The keyword arguments of `review_code`.
pub record Request : Type 0 where
  pub code : Text
  pub filename : Text
  pub repo : Text
  pub commit_sha : Text
  pub include_llm : Bool
  pub use_multi_agent : Bool

-- `f"{repo}:{commit_sha}"`
abbrev pub canary_key : Request → Text
canary_key q = q.repo ++ (codes ":" ++ q.commit_sha)

-- The findings of the language models, and whether they succeeded.
unfoldable pub llm_results : Services → Request → List Finding × Bool
unfolding run_all_agents
llm_results services q =
    if q.use_multi_agent
    then run_all_agents services q.code q.filename (canary_key q)
    else services.llm_supplement q.code q.filename (canary_key q)

-- The review of code that the interpreter rejects.
unfoldable pub failed_review : Services → Request → SyntaxError → ReviewResult
unfolding collect_syntax_error_findings show
failed_review services q e =
    let findings = collect_syntax_error_findings services.python q.code q.filename in
    record {
      repo = q.repo;
      commit_sha = q.commit_sha;
      status = failed;
      findings = findings;
      summary =
          codes "Analysis could not run — "
          ++ (show (length findings) ++ (codes " syntax error(s) found, starting with: " ++ e.msg));
    }

unfoldable pub result_of : Request → List Finding → ReviewStatus → ReviewResult
unfolding build_summary
result_of q findings status = record {
  repo = q.repo;
  commit_sha = q.commit_sha;
  status = status;
  findings = findings;
  summary = build_summary findings status;
}

-- The review of code that the interpreter accepts.
unfoldable pub parsed_review : Services → Request → ReviewResult
unfolding run_deterministic_checkers llm_results is_trustworthy select result_of
parsed_review services q =
    let findings = run_deterministic_checkers services q.code q.filename in
    let (llm_findings, llm_succeeded) = llm_results services q in
    if q.include_llm
    then result_of q
        (findings ++ select (λ f. is_trustworthy services.python f q.code) llm_findings)
        (if llm_succeeded then completed else degraded)
    else result_of q findings completed

-- The branch on what `compile` raises.
unfoldable pub review_compiled : Services → Request → Option SyntaxError → ReviewResult
unfolding failed_review parsed_review
review_compiled services q none = parsed_review services q
review_compiled services q (some e) = failed_review services q e

unfoldable pub review_code : Services → Request → ReviewResult
unfolding review_compiled
review_code services q = review_compiled services q (services.python.compile q.code q.filename)
