-- ===== src/Examples/Reviews.antt =====
-- Examples for src/core/models.py, src/core/pr_gate.py and src/core/confidence.py.
use githubprojectforissueide.Prelude.{◌≡◌, refl, [], ◌∷◌}
use githubprojectforissueide.Text.{codes}
use githubprojectforissueide.Models.{
  Finding, ReviewResult, finding, critical, warning, high, medium, completed, degraded,
}
use githubprojectforissueide.Gate.{decide, block, review_required, gate_reason}

abbrev guard : Finding
guard = record (finding (codes "a.py") 3 (codes "runtime") critical (codes "unguarded")) {
  confidence = medium;
  fix = codes "x = 1";
}

abbrev colon : Finding
colon = record guard { severity = warning; confidence = high }

abbrev reviewed : ReviewResult
reviewed = record {
  repo = codes "acme/widgets";
  commit_sha = codes "abc";
  status = completed;
  findings = guard ∷ colon ∷ [];
  summary = [];
}

blocked : decide reviewed ≡ block
unfolding decide
blocked = refl

blocked_reason : gate_reason reviewed ≡ codes "1 critical finding must be resolved before merge."
unfolding gate_reason
blocked_reason = refl

not_clean : decide (record reviewed { status = degraded; findings = [] }) ≡ review_required
unfolding decide
not_clean = refl
