-- ===== src/Models.antt =====
-- src/core/models.py: findings and review results.
use githubprojectforissueide.Prelude.{ℕ, Bool, true, false, not, ◌&&◌, ◌||◌, List, [], count, ◌==◌}
use githubprojectforissueide.Text.{Text, codes, is_blank}

pub data Severity : Type 0 where
  critical warning info : Severity

pub data ConfidenceTier : Type 0 where
  high medium low : ConfidenceTier

pub data ReviewStatus : Type 0 where
  completed degraded failed : ReviewStatus

-- `status.value`, `severity.value`, `confidence.value`
unfoldable pub status_value : ReviewStatus → Text
status_value completed = codes "completed"
status_value degraded = codes "degraded"
status_value failed = codes "failed"

unfoldable pub severity_value : Severity → Text
severity_value critical = codes "critical"
severity_value warning = codes "warning"
severity_value info = codes "info"

unfoldable pub confidence_value : ConfidenceTier → Text
confidence_value high = codes "high"
confidence_value medium = codes "medium"
confidence_value low = codes "low"

-- `==` on the enumerations.
abbrev pub is_critical : Severity → Bool
is_critical critical = true
is_critical _ = false

abbrev pub is_high : ConfidenceTier → Bool
is_high high = true
is_high _ = false

abbrev pub is_medium : ConfidenceTier → Bool
is_medium medium = true
is_medium _ = false

abbrev pub is_completed : ReviewStatus → Bool
is_completed completed = true
is_completed _ = false

pub record Finding : Type 0 where
  pub file : Text
  pub line : ℕ
  pub end_line : ℕ
  pub category : Text
  pub severity : Severity
  pub message : Text
  pub bad_code : Text
  pub fix : Text
  pub fix_is_deletion : Bool
  pub confidence : ConfidenceTier
  pub source : Text

-- A finding with the defaults of the class.
abbrev pub finding : Text → ℕ → Text → Severity → Text → Finding
finding file line category severity message = record {
  file = file;
  line = line;
  end_line = 0;
  category = category;
  severity = severity;
  message = message;
  bad_code = [];
  fix = [];
  fix_is_deletion = false;
  confidence = low;
  source = codes "unknown";
}

unfoldable pub has_fix : Finding → Bool
unfolding is_blank
has_fix f = not (is_blank f.fix) || f.fix_is_deletion

-- `reviewed_at`, the time of the review, is left out: nothing that is modelled reads it.
pub record ReviewResult : Type 0 where
  pub repo : Text
  pub commit_sha : Text
  pub status : ReviewStatus
  pub findings : List Finding
  pub summary : Text

unfoldable pub critical_count : ReviewResult → ℕ
unfolding count
critical_count r = count (λ f. is_critical f.severity) r.findings

unfoldable pub is_approvable : ReviewResult → Bool
unfolding critical_count
is_approvable r = is_completed r.status && critical_count r == 0
