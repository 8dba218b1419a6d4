-- ===== src/Gate.antt =====
-- src/core/pr_gate.py: whether a review lets its pull request be approved.
pub mod Decision
use githubprojectforissueide.Prelude.{
  ℕ, Bool, true, false, not, List, [], ◌∷◌, ◌++◌, ltb, ◌==◌, if◌then◌else◌,
}
use githubprojectforissueide.Text.{Text, codes, show, is_empty}
use githubprojectforissueide.Models.{ReviewResult, is_completed, critical_count, status_value}

pub data GateDecision : Type 0 where
  approve block review_required : GateDecision

-- `decision.value`
unfoldable pub decision_value : GateDecision → Text
decision_value approve = codes "approve"
decision_value block = codes "block"
decision_value review_required = codes "review_required"

unfoldable pub decide : ReviewResult → GateDecision
unfolding critical_count
decide r =
    if not (is_completed r.status)
    then review_required
    else if ltb 0 (critical_count r)
    then block
    else approve

-- `result.summary or 'see logs for details'`
unfoldable pub summary_or_default : Text → Text
unfolding is_empty
summary_or_default s = if is_empty s then codes "see logs for details" else s

unfoldable pub gate_reason : ReviewResult → Text
unfolding decide summary_or_default show status_value
gate_reason r = elim (decide r) [
  | review_required ↦
      codes "Review did not complete ("
      ++ (status_value r.status
          ++ (codes ") — "
              ++ (summary_or_default r.summary
                  ++ codes
                      " Re-run once the underlying issue clears; do not treat this as a clean pass.")))
  | block ↦
      show (critical_count r)
      ++ (codes " critical finding"
          ++ ((if critical_count r == 1 then [] else codes "s")
              ++ codes " must be resolved before merge."))
  | approve ↦ codes "No critical issues — approved."
]
