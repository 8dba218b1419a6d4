-- ===== src/Examples/Posting.antt =====
-- Examples for the comments, the combined review and the guidance.
use githubprojectforissueide.Prelude.{
  ℕ, zero, suc, List, none, arith, ◌≡◌, ◌≢◌, ◌↔◌, refl, true, [], ◌∷◌, some, All, length,
}
use githubprojectforissueide.Text.{Text, codes}
use githubprojectforissueide.Models.{
  Finding, ReviewResult, finding, warning, critical, completed, degraded, failed,
}
use githubprojectforissueide.Gate.{decide, approve}
use githubprojectforissueide.PullRequest.{Comment, combine, has_comment, post_comments}
use githubprojectforissueide.PullRequest.Combined.{combine_outcomes}
use githubprojectforissueide.PullRequest.Comments.{post_comments-All, post_comments-again}

abbrev same : Text → Text
same s = s

abbrev fixed : Finding
fixed = record (finding (codes "a.py") 3 (codes "runtime") warning (codes "unguarded")) {
  fix = codes "x = 1";
}

abbrev plain : Finding
plain = finding (codes "b.py") 5 (codes "security") critical (codes "query built from input")

-- A finding without a fix at the line of a suggestion gets no comment of its own.
abbrev shadowed : Finding
shadowed = record plain { file = codes "a.py"; line = 3 }

two_comments : length (post_comments same [] (fixed ∷ plain ∷ shadowed ∷ [])) ≡ 2
unfolding post_comments
two_comments = refl

post_comments-All_example :
    let fs = fixed ∷ plain ∷ shadowed ∷ [] in
    All (λ f. has_comment (post_comments same [] fs) f ≡ true) fs
post_comments-All_example = post_comments-All same [] (fixed ∷ plain ∷ shadowed ∷ [])

post_comments-again_example :
    let fs = fixed ∷ plain ∷ [] in
    post_comments same (post_comments same [] fs) fs ≡ post_comments same [] fs
unfolding post_comments
post_comments-again_example = post_comments-again same [] (fixed ∷ plain ∷ []) (omega arith)

-- A finding whose comment is behind the first page gets another one.
abbrev others : ℕ → List Comment
others zero = []
others (suc n) = record { path = codes "z.py"; line = some n; first = none; body = [] } ∷ others n

posted_again :
    let comments = post_comments same (others 30) (fixed ∷ []) in
    (length comments ≡ 31) × (length (post_comments same comments (fixed ∷ [])) ≡ 32)
unfolding post_comments
posted_again = (refl, refl)

abbrev clean : ReviewResult
clean = record {
  repo = codes "acme/widgets";
  commit_sha = codes "abc";
  status = completed;
  findings = fixed ∷ [];
  summary = [];
}

abbrev partial : ReviewResult
partial = record clean { status = degraded; findings = [] }

abbrev both : ReviewResult
both = record clean { status = degraded; summary = codes "2 file(s) reviewed, 1 finding(s) total." }

combined : combine (codes "acme/widgets") (codes "abc") (clean ∷ partial ∷ []) ≡ some both
unfolding combine
combined = refl

combine_outcomes_example :
    ((both.status ≡ completed) ↔ All (λ r. r.status ≡ completed) (clean ∷ partial ∷ []))
    × ((both.status ≢ failed) ↔ All (λ r. r.status ≢ failed) (clean ∷ partial ∷ []))
    × ((decide both ≡ approve) ↔ All (λ r. decide r ≡ approve) (clean ∷ partial ∷ []))
combine_outcomes_example =
    combine_outcomes (codes "acme/widgets") (codes "abc") (clean ∷ partial ∷ []) both combined
