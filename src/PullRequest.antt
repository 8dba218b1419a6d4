-- ===== src/PullRequest.antt =====
-- src/cli/review_pr.py: the combined review of a pull request, and the comments on its lines.
pub mod Combined
pub mod Comments
use githubprojectforissueide.Prelude.{
  ℕ, Bool, true, false, not, ◌&&◌, List, [], ◌∷◌, ◌++◌, map, Option, none, some, any, length, take,
  ltb, leb, ◌==◌, if◌then◌else◌,
}
use githubprojectforissueide.Text.{Text, codes, text_eq, show, is_empty}
use githubprojectforissueide.Models.{
  Finding, ReviewResult, ReviewStatus, completed, degraded, failed, Severity, critical, warning,
  info, confidence_value, has_fix,
}
use githubprojectforissueide.Confidence.{manual_review_reason}
use githubprojectforissueide.Fixes.{start_line, last_line}
use githubprojectforissueide.Remediation.{get_remediation_for_finding}

-- `_STATUS_SEVERITY`
abbrev pub status_severity : ReviewStatus → ℕ
status_severity failed = 2
status_severity degraded = 1
status_severity completed = 0

-- `max(..., key=...)` of a first status and others: the first of the largest.
unfoldable pub worst_of : ReviewStatus → List ReviewResult → ReviewStatus
worst_of s [] = s
worst_of s (r ∷ results) =
    worst_of (if ltb (status_severity s) (status_severity r.status) then r.status else s) results

-- `[f for r in results for f in r.findings]`
unfoldable pub all_findings : List ReviewResult → List Finding
all_findings [] = []
all_findings (r ∷ results) = r.findings ++ all_findings results

-- `_combine`; `none` is the ValueError of `max` where there is no result.
unfoldable pub combine : Text → Text → List ReviewResult → Option ReviewResult
unfolding worst_of all_findings show
combine repo commit_sha [] = none
combine repo commit_sha (r ∷ results) = some (record {
  repo = repo;
  commit_sha = commit_sha;
  status = worst_of r.status results;
  findings = all_findings (r ∷ results);
  summary =
      show (length (r ∷ results))
      ++ (codes " file(s) reviewed, "
          ++ (show (length (all_findings (r ∷ results))) ++ codes " finding(s) total."));
})

-- A review comment: its path, its line, which is none on an outdated one, the first line of a range,
-- and its text.
pub record Comment : Type 0 where
  pub path : Text
  pub line : Option ℕ
  pub first : Option ℕ
  pub body : Text

-- `f.severity.value.upper()`
abbrev pub upper_severity : Severity → Text
upper_severity critical = codes "CRITICAL"
upper_severity warning = codes "WARNING"
upper_severity info = codes "INFO"

-- `(f.file, end) in existing`
unfoldable pub is_at : Finding → Comment → Bool
unfolding text_eq last_line
is_at f c = text_eq f.file c.path && elim c.line [ none ↦ false | some n ↦ last_line f == n ]

unfoldable pub has_comment : List Comment → Finding → Bool
unfolding any is_at
has_comment existing f = any (is_at f) existing

-- The comment that `create_review_comment` is called with.
unfoldable pub comment_on : Finding → Text → Comment
unfolding start_line last_line
comment_on f body = record {
  path = f.file;
  line = some (last_line f);
  first = if ltb (start_line f) (last_line f) then some (start_line f) else none;
  body = body;
}

abbrev pub heading : Finding → Text
heading f =
    codes "**[" ++ (upper_severity f.severity ++ (codes "] " ++ (f.message ++ codes "**\n\n")))

-- The note below a suggestion.
unfoldable pub suggestion_note : (Text → Text) → Finding → Text
unfolding manual_review_reason confidence_value is_empty get_remediation_for_finding
suggestion_note wide f =
    let reason = manual_review_reason f in
    (if not (is_empty reason)
      then codes
          "*Why this needs a human to click \"Apply suggestion\" rather than happening on its own ("
        ++ (confidence_value f.confidence ++ (codes " confidence):* " ++ reason))
      else codes "*This fix is **"
        ++ (confidence_value f.confidence
            ++ codes
                " confidence** — safe to commit without review. Click \"Apply suggestion\" now, or re-run with `--auto-apply` to have fixes like this committed automatically.*"))
    ++ elim (get_remediation_for_finding wide f.source f.message) [
      | none ↦ []
      | some remediation ↦ codes "\n\n*Why this matters:* " ++ remediation
    ]

unfoldable pub suggestion_body : (Text → Text) → Finding → Text
unfolding suggestion_note
suggestion_body wide f =
    heading f
    ++ ((if f.fix_is_deletion
          then codes "```suggestion\n```"
          else codes "```suggestion\n" ++ (f.fix ++ codes "\n```"))
        ++ (codes "\n\n" ++ suggestion_note wide f))

-- The text of a comment without a suggestion. Its reason is never empty for a finding without a fix
-- that is not of high confidence.
unfoldable pub no_fix_body : (Text → Text) → Finding → Text
unfolding manual_review_reason is_empty get_remediation_for_finding
no_fix_body wide f =
    let reason = manual_review_reason f in
    let why = codes "*Why this needs manual investigation:* " ++ reason in
    heading f ++ elim (get_remediation_for_finding wide f.source f.message) [
      | none ↦ if is_empty reason then [] else why
      | some remediation ↦
          let how = codes "*How to resolve it:* " ++ remediation in
          if is_empty reason then how else why ++ (codes "\n\n" ++ how)
    ]

-- `list_review_comments`, which asks for one page of comments: GitHub answers with the 30 oldest.
abbrev pub page_size : ℕ
page_size = 30

unfoldable pub list_review_comments : List Comment → List Comment
list_review_comments comments = take page_size comments

-- `post_fix_suggestions` and `post_no_fix_comments`: the comments that they create, in order, where
-- `existing` are those that are listed when they start.
unfoldable pub post_fix_suggestions : (Text → Text) → List Comment → List Finding → List Comment
unfolding has_fix has_comment comment_on suggestion_body
post_fix_suggestions wide existing [] = []
post_fix_suggestions wide existing (f ∷ fs) =
    let rest = post_fix_suggestions wide existing fs in
    if not (has_fix f)
    then rest
    else if has_comment existing f
    then rest
    else comment_on f (suggestion_body wide f) ∷ rest

unfoldable pub post_no_fix_comments : (Text → Text) → List Comment → List Finding → List Comment
unfolding has_fix has_comment comment_on no_fix_body
post_no_fix_comments wide existing [] = []
post_no_fix_comments wide existing (f ∷ fs) =
    let rest = post_no_fix_comments wide existing fs in
    if has_fix f
    then rest
    else if has_comment existing f
    then rest
    else comment_on f (no_fix_body wide f) ∷ rest

-- The comments of the pull request after both calls, as `review_pr` makes them.
unfoldable pub post_comments : (Text → Text) → List Comment → List Finding → List Comment
unfolding list_review_comments post_fix_suggestions post_no_fix_comments
post_comments wide existing fs =
    let suggested = existing ++ post_fix_suggestions wide (list_review_comments existing) fs in
    suggested ++ post_no_fix_comments wide (list_review_comments suggested) fs
