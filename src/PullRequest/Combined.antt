-- ===== src/PullRequest/Combined.antt =====
-- What the combined review of a pull request says of its files.
use githubprojectforissueide.Prelude.{
  ◌≡◌, ◌≢◌, ◌↔◌, subst, List, [], ◌∷◌, ◌++◌, some, All, arith, ltb, if◌then◌else◌,
}
use githubprojectforissueide.Text.{Text}
use githubprojectforissueide.Models.{Finding, ReviewResult, ReviewStatus, completed, failed}
use githubprojectforissueide.Gate.{decide, approve}
use githubprojectforissueide.Gate.Decision.{NoneCritical, decide_outcomes}
use githubprojectforissueide.PullRequest.{status_severity, worst_of, all_findings, combine}

abbrev worse : ReviewStatus → ReviewStatus → ReviewStatus
worse s t = if ltb (status_severity s) (status_severity t) then t else s

worse-completed :
    (s t : ReviewStatus) → (worse s t ≡ completed) ↔ ((s ≡ completed) × (t ≡ completed))
worse-completed s t = ground arith

worse-not_failed : (s t : ReviewStatus) → (worse s t ≢ failed) ↔ ((s ≢ failed) × (t ≢ failed))
worse-not_failed s t = ground arith

worst_of-completed :
    (s : ReviewStatus) (results : List ReviewResult)
    → (worst_of s results ≡ completed) ↔ ((s ≡ completed) × All (λ r. r.status ≡ completed) results)
unfolding worst_of
worst_of-completed s [] = (λ h. (h, tt), λ h. h.0)
worst_of-completed s (r ∷ results) =
    let (to, from) = worst_of-completed (worse s r.status) results in
    let (split, join) = worse-completed s r.status in
    (
      λ h. ((split (to h).0).0, ((split (to h).0).1, (to h).1)),
      λ h. from (join (h.0, h.1.0), h.1.1),
    )

worst_of-not_failed :
    (s : ReviewStatus) (results : List ReviewResult)
    → (worst_of s results ≢ failed) ↔ ((s ≢ failed) × All (λ r. r.status ≢ failed) results)
unfolding worst_of
worst_of-not_failed s [] = (λ h. (h, tt), λ h. h.0)
worst_of-not_failed s (r ∷ results) =
    let (to, from) = worst_of-not_failed (worse s r.status) results in
    let (split, join) = worse-not_failed s r.status in
    (
      λ h. ((split (to h).0).0, ((split (to h).0).1, (to h).1)),
      λ h. from (join (h.0, h.1.0), h.1.1),
    )

some_inj : {a b : ReviewResult} → some a ≡ some b → a ≡ b
some_inj h = cc

NoneCritical-append :
    (fs gs : List Finding) → NoneCritical (fs ++ gs) ↔ (NoneCritical fs × NoneCritical gs)
NoneCritical-append [] gs = (λ h. (tt, h), λ h. h.1)
NoneCritical-append (f ∷ fs) gs =
    let (to, from) = NoneCritical-append fs gs in
    (λ h. ((h.0, (to h.1).0), (to h.1).1), λ h. (h.0.0, from (h.0.1, h.1)))

all_findings-NoneCritical :
    (results : List ReviewResult)
    → NoneCritical (all_findings results) ↔ All (λ r. NoneCritical r.findings) results
unfolding all_findings
all_findings-NoneCritical [] = (λ h. tt, λ h. tt)
all_findings-NoneCritical (r ∷ results) =
    let (to, from) = all_findings-NoneCritical results in
    let (split, join) = NoneCritical-append r.findings (all_findings results) in
    (λ h. ((split h).0, to (split h).1), λ h. join (h.0, from h.1))

approvals :
    (results : List ReviewResult)
    → All (λ r. decide r ≡ approve) results
      ↔ (All (λ r. r.status ≡ completed) results × All (λ r. NoneCritical r.findings) results)
approvals [] = (λ h. (tt, tt), λ h. tt)
approvals (r ∷ results) =
    let (to, from) = approvals results in
    let (split, join) = (decide_outcomes r).0 in
    (
      λ h. (((split h.0).0, (to h.1).0), ((split h.0).1, (to h.1).1)),
      λ h. (join (h.0.0, h.1.0), from (h.0.1, h.1.1)),
    )

-- The combined review of some files completed exactly if the review of each file did, failed only if
-- that of some file did, and the gate approves it exactly if it approves the review of each file.
pub combine_outcomes :
    (repo commit_sha : Text) (results : List ReviewResult) (c : ReviewResult)
    → combine repo commit_sha results ≡ some c
    → ((c.status ≡ completed) ↔ All (λ r. r.status ≡ completed) results)
      × ((c.status ≢ failed) ↔ All (λ r. r.status ≢ failed) results)
      × ((decide c ≡ approve) ↔ All (λ r. decide r ≡ approve) results)
unfolding combine
combine_outcomes repo commit_sha [] c h = cc
combine_outcomes repo commit_sha (r ∷ results) c h =
    subst
      (λ d.
        ((d.status ≡ completed) ↔ All (λ r. r.status ≡ completed) (r ∷ results))
        × ((d.status ≢ failed) ↔ All (λ r. r.status ≢ failed) (r ∷ results))
        × ((decide d ≡ approve) ↔ All (λ r. decide r ≡ approve) (r ∷ results)))
      (some_inj h)
      (let (split, join) = (decide_outcomes _).0 in
        let (done, back) = worst_of-completed r.status results in
        let (clean, dirty) = all_findings-NoneCritical (r ∷ results) in
        let (all, each) = approvals (r ∷ results) in
        (
          (done, back),
          worst_of-not_failed r.status results,
          (
            λ g. each (done (split g).0, clean (split g).1),
            λ g. join (back (all g).0, dirty (all g).1),
          ),
        ))
