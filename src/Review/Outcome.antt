-- ===== src/Review/Outcome.antt =====
-- The status of a review, and what its approval by the gate rests on.
use githubprojectforissueide.Prelude.{
  ◌≡◌, ◌≢◌, ◌↔◌, refl, ap, ◌∙◌, sym, subst, Bool, true, false, List, [], ◌∷◌, ◌++◌, Option, none,
  some, All, select, arith, Bool-cases, inl, inr, if◌then◌else◌, append-nil,
}
use githubprojectforissueide.Text.{Text}
use githubprojectforissueide.Models.{
  Finding, ReviewStatus, ReviewResult, completed, degraded, failed,
}
use githubprojectforissueide.Gate.{approve, decide}
use githubprojectforissueide.Gate.Decision.{NoneCritical, decide_outcomes}
use githubprojectforissueide.Syntax.{Python, SyntaxError}
use githubprojectforissueide.Review.{
  Request, llm_results, result_of, parsed_review, review_compiled, failed_review, review_code,
}
use githubprojectforissueide.Review.Agents.{
  Checker, Services, run_checkers, run_deterministic_checkers,
}
use githubprojectforissueide.Review.Grounding.{is_trustworthy}
use githubprojectforissueide.Review.Selected.{
  select-All, All-append, Trusted, found_by, run_checkers-found_by,
}

-- The status by its two reasons to be worse than completed.
status_of : Bool → Bool → ReviewStatus
status_of include succeeded =
    if include then (if succeeded then completed else degraded) else completed

parsed_review_status :
    (services : Services) (q : Request)
    → (parsed_review services q).status ≡ status_of q.include_llm (llm_results services q).1
unfolding parsed_review result_of status_of
parsed_review_status services q = elim (Bool-cases q.include_llm) [ inl h ↦ rw h | inr h ↦ rw h ]

StatusLaw : Bool → Bool → Option SyntaxError → ReviewStatus → Type 0
StatusLaw include succeeded c status =
    ((status ≡ failed) ↔ (c ≢ none))
    × ((status ≡ degraded) ↔ ((c ≡ none) × (include ≡ true) × (succeeded ≡ false)))
    × ((status ≡ completed) ↔ ((c ≡ none) × (include ≡ true → succeeded ≡ true)))

status_of-StatusLaw :
    (include succeeded : Bool) → StatusLaw include succeeded none (status_of include succeeded)
unfolding status_of StatusLaw
status_of-StatusLaw include succeeded = ground arith

failed-StatusLaw :
    (include succeeded : Bool) (e : SyntaxError) → StatusLaw include succeeded (some e) failed
unfolding StatusLaw
failed-StatusLaw include succeeded e =
    ((λ h n. cc, λ h. refl), (λ h. cc, λ h. cc), (λ h. cc, λ h. cc))

review_compiled-StatusLaw :
    (services : Services) (q : Request) (c : Option SyntaxError)
    → StatusLaw q.include_llm (llm_results services q).1 c (review_compiled services q c).status
unfolding review_compiled failed_review
review_compiled-StatusLaw services q none =
    subst (StatusLaw q.include_llm (llm_results services q).1 none)
      (sym (parsed_review_status services q))
      (status_of-StatusLaw q.include_llm (llm_results services q).1)
review_compiled-StatusLaw services q (some e) =
    failed-StatusLaw q.include_llm (llm_results services q).1 e

-- A review fails exactly if the interpreter rejects the code; it is degraded exactly if the code is
-- accepted, the language models are included and they did not succeed; it completes exactly if the
-- code is accepted and the language models, if they are included, succeeded.
pub review_code_status :
    (services : Services) (q : Request)
    → let c = services.python.compile q.code q.filename in
      let succeeded = (llm_results services q).1 in
      let status = (review_code services q).status in
      ((status ≡ failed) ↔ (c ≢ none))
      × ((status ≡ degraded) ↔ ((c ≡ none) × (q.include_llm ≡ true) × (succeeded ≡ false)))
      × ((status ≡ completed) ↔ ((c ≡ none) × (q.include_llm ≡ true → succeeded ≡ true)))
unfolding review_code StatusLaw
review_code_status services q =
    review_compiled-StatusLaw services q (services.python.compile q.code q.filename)

-- The gate approves the review of a file only if the interpreter accepts the code, the language
-- models succeeded if they were included, and nothing critical was found; and then it does.
pub review_code-approve :
    (services : Services) (q : Request)
    → (decide (review_code services q) ≡ approve) ↔ (
        ((services.python.compile q.code q.filename ≡ none)
          × (q.include_llm ≡ true → (llm_results services q).1 ≡ true))
        × NoneCritical (review_code services q).findings)
review_code-approve services q =
    let (to, from) = (decide_outcomes (review_code services q)).0 in
    let (done, back) = (review_code_status services q).2 in
    (λ h. (done (to h).0, (to h).1), λ h. from (back h.0, h.1))

run_checkers-Trusted :
    (py : Python) (code filename : Text) (checkers : List Checker)
    → Trusted py code (run_checkers py code filename checkers)
unfolding run_checkers
run_checkers-Trusted py code filename [] = tt
run_checkers-Trusted py code filename (checker ∷ checkers) =
    All-append _ (select (λ f. is_trustworthy py f code) (checker code filename)) _
      (select-All _ (checker code filename)) (run_checkers-Trusted py code filename checkers)

DeterministicFirst : Services → Request → Bool → ReviewResult → Type 0
DeterministicFirst services q include r =
    ((extra : List Finding) × (r.findings
        ≡ run_deterministic_checkers services q.code q.filename ++ extra)
      × (include ≡ false → extra ≡ []))
    × Trusted services.python q.code r.findings

either_result :
    (services : Services) (q : Request) (b : Bool) (r s : ReviewResult)
    → DeterministicFirst services q true r
    → DeterministicFirst services q false s
    → DeterministicFirst services q b (if b then r else s)
either_result services q true r s h k = h
either_result services q false r s h k = k

parsed_review-DeterministicFirst :
    (services : Services) (q : Request)
    → DeterministicFirst services q q.include_llm (parsed_review services q)
unfolding parsed_review result_of DeterministicFirst run_deterministic_checkers
parsed_review-DeterministicFirst services q =
    let py = services.python in
    let found = run_checkers py q.code q.filename services.checkers in
    let trusted = run_checkers-Trusted py q.code q.filename services.checkers in
    let others = select (λ f. is_trustworthy py f q.code) (llm_results services q).0 in
    either_result services q q.include_llm _ _
      (
        (others, refl, λ h. cc),
        All-append _ found others trusted (select-All _ (llm_results services q).0),
      )
      (([], sym (append-nil found), λ h. refl), trusted)

-- A review of code that the interpreter accepts reports, of all that the checkers find, one checker
-- after another, exactly what is trusted, first and in that order, whether or not a language model
-- fails; it reports nothing more where language models are not included; and all that it reports is
-- trusted.
pub review_code_findings :
    (services : Services) (q : Request)
    → services.python.compile q.code q.filename ≡ none
    → let fs = (review_code services q).findings in
      ((extra : List Finding) × (fs
          ≡ select
              (λ f. is_trustworthy services.python f q.code)
              (found_by q.code q.filename services.checkers)
            ++ extra)
        × (q.include_llm ≡ false → extra ≡ []))
      × All (λ f. is_trustworthy services.python f q.code ≡ true) fs
unfolding review_code review_compiled DeterministicFirst run_deterministic_checkers
review_code_findings services q accepted =
    let ((extra, e, no_more), trusted) =
      subst (λ c. DeterministicFirst services q q.include_llm (review_compiled services q c))
        (sym accepted) (parsed_review-DeterministicFirst services q) in
    let all_checkers = run_checkers-found_by services.python q.code q.filename services.checkers in
    ((extra, e ∙ ap (λ found. found ++ extra) all_checkers, no_more), trusted)
