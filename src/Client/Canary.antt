-- ===== src/Client/Canary.antt =====
-- src/core/canary.py: which reviews try the candidate model.
use githubprojectforissueide.Prelude.{ℕ, ◌%◌, ◌≡◌, ◌≤◌, min, ltb, ◌==◌, arith, if◌then◌else◌}
use githubprojectforissueide.Text.{Text}

pub data Variant : Type 0 where
  stable canary : Variant

-- `_CANARY_BUCKET_SIZE`
abbrev pub bucket_size : ℕ
bucket_size = 100

-- `variant_for`. The parameter is the number that the first 8 hexadecimal digits of a key's SHA-256
-- make; a percentage below 0, which the source clamps, is 0 here.
unfoldable pub variant_for : (Text → ℕ) → Text → ℕ → Variant
variant_for digest key rollout_percent =
    let percent = min 100 rollout_percent in
    if percent == 0
    then stable
    else if percent == 100
    then canary
    else if ltb (digest key % bucket_size) percent
    then canary
    else stable

-- A larger percentage never takes a key back to the stable model.
pub variant_for_mono :
    (digest : Text → ℕ) (key : Text) (p q : ℕ)
    → p ≤ q
    → variant_for digest key p ≡ canary
    → variant_for digest key q ≡ canary
unfolding variant_for
variant_for_mono digest key p q le h = ground arith
