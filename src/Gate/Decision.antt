-- ===== src/Gate/Decision.antt =====
-- The three outcomes of the gate of src/core/pr_gate.py, from the review that it reads.
use githubprojectforissueide.Prelude.{
  ◌≡◌, ◌↔◌, ◌≢◌, refl, true, false, List, [], ◌∷◌, arith, count, All,
}
use githubprojectforissueide.Models.{
  Finding, ReviewResult, completed, is_critical, critical_count, is_approvable,
}
use githubprojectforissueide.Gate.{approve, block, review_required, decide}

-- No finding is critical.
abbrev pub NoneCritical : List Finding → Type 0
NoneCritical = All (λ f. is_critical f.severity ≡ false)

count-zero→NoneCritical :
    (fs : List Finding) → count (λ f. is_critical f.severity) fs ≡ 0 → NoneCritical fs
unfolding count
count-zero→NoneCritical [] h = tt
count-zero→NoneCritical (f ∷ fs) h = (ground arith, count-zero→NoneCritical fs (ground arith))

NoneCritical→count-zero :
    (fs : List Finding) → NoneCritical fs → count (λ f. is_critical f.severity) fs ≡ 0
unfolding count
NoneCritical→count-zero [] h = refl
NoneCritical→count-zero (f ∷ fs) h = ground (arith, NoneCritical→count-zero fs h.1)

NoneCritical-iff : (r : ReviewResult) → (critical_count r ≡ 0) ↔ NoneCritical r.findings
unfolding critical_count
NoneCritical-iff r = (count-zero→NoneCritical r.findings, NoneCritical→count-zero r.findings)

-- The gate approves a review exactly if it completed and none of its findings is critical; it
-- blocks exactly if it completed and some finding is critical; and it asks for a human review
-- exactly if it did not complete, whatever was found.
pub decide_outcomes :
    (r : ReviewResult)
    → ((decide r ≡ approve) ↔ ((r.status ≡ completed) × NoneCritical r.findings))
      × ((decide r ≡ block) ↔ ((r.status ≡ completed) × (¬ NoneCritical r.findings)))
      × ((decide r ≡ review_required) ↔ (r.status ≢ completed))
unfolding decide
decide_outcomes r =
    let (to, from) = NoneCritical-iff r in
    (
      (λ h. (ground arith, to (ground arith)), λ h. ground (arith, from h.1)),
      (
        λ h. (ground arith, λ n. ground (arith, from n)),
        λ h. let k : ¬ (critical_count r ≡ 0) = λ e. h.1 (to e) in ground arith,
      ),
      (λ h. ground arith, λ h. ground arith),
    )

-- The gate and the property `is_approvable` of the result never disagree.
pub decide-is_approvable : (r : ReviewResult) → (decide r ≡ approve) ↔ (is_approvable r ≡ true)
unfolding decide is_approvable
decide-is_approvable r = ground arith
