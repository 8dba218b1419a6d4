-- ===== src/Confidence.antt =====
-- src/core/confidence.py: which fixes may be applied with no human looking, and why the others not.
pub mod Reasons
use githubprojectforissueide.Prelude.{
  ℕ, Bool, true, false, not, List, [], ◌∷◌, ◌++◌, map, select, length, ◌==◌, if◌then◌else◌,
}
use githubprojectforissueide.Text.{Text, codes, text_eq, is_empty}
use githubprojectforissueide.Models.{Finding, is_high, is_medium, has_fix}

unfoldable pub is_safe_to_auto_apply : Finding → Bool
is_safe_to_auto_apply f = is_high f.confidence

abbrev pub reason_no_fix : Text
reason_no_fix = codes "No fix was generated for this finding — needs manual investigation."

abbrev pub reason_syntax : Text
reason_syntax =
    codes
      "Confidence is MEDIUM — this is the smallest reindent the parser confirms actually fixes the file, but how many lines were truly meant to belong to the block is a judgment call about intent this can't verify on its own."

abbrev pub reason_medium : Text
reason_medium =
    codes
      "Confidence is MEDIUM — a reasonable checker-generated fix, but which exact guard behavior is correct (raise vs. return vs. skip) is a judgment call about intent, not a verified certainty."

abbrev pub reason_low : Text
reason_low =
    codes
      "Confidence is LOW — free-form LLM output with no independent verification beyond basic grounding/validity checks."

abbrev pub reason_conflict : Text
reason_conflict =
    codes
      "High confidence, but not applied this run -- another finding on the same line conflicted with it."

abbrev pub reason_rerun : Text
reason_rerun =
    codes
      "High confidence and auto-fixable -- re-run with --auto-apply to have this committed automatically."

unfoldable pub manual_review_reason : Finding → Text
unfolding is_safe_to_auto_apply has_fix text_eq
manual_review_reason f =
    if is_safe_to_auto_apply f
    then []
    else if not (has_fix f)
    then reason_no_fix
    else if is_medium f.confidence
    then (if text_eq f.category (codes "syntax") then reason_syntax else reason_medium)
    else reason_low

unfoldable pub review_reason : Finding → Bool → Text
unfolding manual_review_reason is_empty
review_reason f auto_apply =
    let reason = manual_review_reason f in
    if not (is_empty reason) then reason else if auto_apply then reason_conflict else reason_rerun

-- An entry of `manual_review_details`.
pub record ReviewDetail : Type 0 where
  pub file : Text
  pub line : ℕ
  pub source : Text
  pub reason : Text

pub record AutoFixStatus : Type 0 where
  pub auto_fixed_count : ℕ
  pub manual_review_count : ℕ
  pub manual_review_details : List ReviewDetail

unfoldable pub detail : Finding → ReviewDetail
unfolding manual_review_reason
detail f = record {
  file = f.file;
  line = f.line;
  source = f.source;
  reason = manual_review_reason f;
}

unfoldable pub summarize_auto_fix_status : List Finding → AutoFixStatus
unfolding detail select
summarize_auto_fix_status findings =
    let auto_fixed = select is_safe_to_auto_apply findings in
    let manual = select (λ f. not (is_safe_to_auto_apply f)) findings in
    record {
      auto_fixed_count = length auto_fixed;
      manual_review_count = length manual;
      manual_review_details = map detail manual;
    }
