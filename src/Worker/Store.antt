-- ===== src/Worker/Store.antt =====
-- src/storage/idempotency_store.py over a key-value store, and the counters of src/core/metrics.py.
use githubprojectforissueide.Prelude.{ℕ, ◌+◌, ◌*◌, ◌<◌, ◌≡◌, Bool, true, false, ◌++◌, if◌then◌else◌}
use githubprojectforissueide.Text.{Text, codes, text_eq}

-- What the code relies on of the store of claims: `SET key "1" NX EX ttl` writes a key that is not there,
-- which expires after `ttl` seconds, and says whether it did; `DEL` removes a key; neither touches another
-- key. A state is what the store holds at the time of a call, and the laws are about calls so close to
-- each other that no key expires between them.
pub record KeyStore (S : Type 0) : Type 0 where
  pub has : Text → S → Bool
  pub set_nx : Text → ℕ → S → Bool × S
  pub delete : Text → S → S
  pub set_nx_new :
      (k : Text) (ttl : ℕ) (s : S) → 0 < ttl → has k s ≡ false → (set_nx k ttl s).0 ≡ true
  pub set_nx_old :
      (k : Text) (ttl : ℕ) (s : S) → 0 < ttl → has k s ≡ true → set_nx k ttl s ≡ (false, s)
  pub has-set_nx : (k : Text) (ttl : ℕ) (s : S) → 0 < ttl → has k (set_nx k ttl s).1 ≡ true
  pub has-delete : (k : Text) (s : S) → has k (delete k s) ≡ false
  pub has-set_nx_other :
      (j k : Text) (ttl : ℕ) (s : S)
      → 0 < ttl
      → text_eq j k ≡ false
      → has j (set_nx k ttl s).1 ≡ has j s
  pub has-delete_other : (j k : Text) (s : S) → text_eq j k ≡ false → has j (delete k s) ≡ has j s

-- `_key`
unfoldable pub claim_key : Text → Text → Text
claim_key repo commit_sha = codes "idempotency:" ++ (repo ++ (codes ":" ++ commit_sha))

-- `DEFAULT_TTL_SECONDS`
abbrev pub default_ttl_seconds : ℕ
default_ttl_seconds = 60 * 60 * 24 * 7

module _ {S : Type 0} (store : KeyStore S) where
  unfoldable pub try_mark_processed : Text → Text → ℕ → S → Bool × S
  unfolding claim_key
  try_mark_processed repo commit_sha ttl_seconds s =
      store.set_nx (claim_key repo commit_sha) ttl_seconds s

  unfoldable pub release : Text → Text → S → S
  unfolding claim_key
  release repo commit_sha s = store.delete (claim_key repo commit_sha) s

-- `_counters`: a name that was never counted is at 0.
abbrev pub Counters : Type 0
Counters = Text → ℕ

unfoldable pub increment : Text → ℕ → Counters → Counters
unfolding text_eq
increment name by counters = λ n. if text_eq n name then counters n + by else counters n
