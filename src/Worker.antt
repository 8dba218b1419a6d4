-- ===== src/Worker.antt =====
-- src/worker/tasks.py: one run of the review task, and the runs that the task queue makes of it.
pub mod Store
pub mod Attempts
pub mod Publishing
use githubprojectforissueide.Prelude.{
  ℕ, zero, suc, not, Bool, true, false, List, [], ◌∷◌, ◌++◌, Option, none, some, length, ◌&&◌,
  if◌then◌else◌,
}
use githubprojectforissueide.Text.{Text, codes}
use githubprojectforissueide.Models.{ReviewResult, ReviewStatus, status_value, critical_count}
use githubprojectforissueide.Gate.{GateDecision, decide, gate_reason, decision_value}
use Store.{KeyStore, default_ttl_seconds, try_mark_processed, release, Counters, increment}

-- `max_retries`
abbrev pub max_retries : ℕ
max_retries = 3

-- What a call comes to: a value, or an exception with its text.
pub data Result (A : Type 0) : Type 0 where
  returned : A → Result A
  raised : Text → Result A

-- What `publish_review` comes to. It posts or updates the summary comment before it creates the check run,
-- so that it may raise before the comment is there, or after.
pub data Publication : Type 0 where
  posted : Publication
  stopped : (after_comment : Bool) → (error : Text) → Publication

-- The keyword arguments of the task that its own code reads.
pub record Job : Type 0 where
  pub repo : Text
  pub commit_sha : Text
  pub pr_number : Option ℕ

-- What the calls of one run come to: `review_code`, `publish_review`, the notifier, the history
-- and the audit log; and whether a token is configured.
pub record Calls : Type 0 where
  pub review : Result ReviewResult
  pub publish : Publication
  pub notify : Result (Unit {0})
  pub save : Result (Unit {0})
  pub audit : Result (Unit {0})
  pub has_token : Bool

pub record DeadLetter : Type 0 where
  pub repo : Text
  pub commit_sha : Text
  pub error : Text

-- What the task changes: the claims, the counters, and what has a summary comment, has one and a check run,
-- was notified of, saved, audited and put aside as failed, in order.
pub record World (S : Type 0) : Type 0 where
  pub claims : S
  pub counters : Counters
  pub commented : List ReviewResult
  pub published : List ReviewResult
  pub notified : List ReviewResult
  pub saved : List ReviewResult
  pub audited : List Text
  pub dead_letters : List DeadLetter

-- The dictionary that the task returns.
pub data TaskResult : Type 0 where
  skipped : TaskResult
  finished :
      (review_status : ReviewStatus) (gate_decision : GateDecision) (gate_reason : Text)
      (findings_count critical_count : ℕ) (published : Bool)
      → TaskResult

-- `pr_number is not None and settings.github_token`
abbrev pub publishes : Job → Calls → Bool
publishes job calls = elim job.pr_number [ none ↦ false | some n ↦ calls.has_token ]

abbrev pub audit_detail : ReviewResult → Text
audit_detail r =
    codes "status=" ++ (status_value r.status ++ (codes " gate=" ++ decision_value (decide r)))

abbrev pub append_if_returned {ℓ} : {A : Type ℓ} → Result (Unit {0}) → A → List A → List A
append_if_returned (returned u) x xs = xs ++ x ∷ []
append_if_returned (raised error) x xs = xs

module _ {S : Type 0} where
  -- The history and the audit log, whose exceptions are caught.
  unfoldable pub record_review : Calls → ReviewResult → World S → World S
  unfolding status_value decision_value decide
  record_review calls r w = record w {
    saved = append_if_returned calls.save r w.saved;
    audited = append_if_returned calls.audit (audit_detail r) w.audited;
  }

  -- The notification, by what it comes to, and what follows it.
  unfoldable pub on_notified :
      Calls → ReviewResult → Bool → World S → Result (Unit {0}) → Result TaskResult × World S
  unfolding record_review decide gate_reason critical_count
  on_notified calls r published w (raised error) = (raised error, w)
  on_notified calls r published w (returned u) = (
    returned (
        finished r.status (decide r) (gate_reason r) (length r.findings) (critical_count r)
          published),
    record_review calls r (record w { notified = w.notified ++ r ∷ [] }),
  )

  -- The publication, by what it comes to, and what follows it.
  unfoldable pub on_published :
      Calls → ReviewResult → World S → Publication → Result TaskResult × World S
  unfolding on_notified
  on_published calls r w (stopped after_comment error) =
      (raised error, record w { commented = w.commented ++ (if after_comment then r ∷ [] else []) })
  on_published calls r w posted =
      on_notified calls r true
        (record w { commented = w.commented ++ r ∷ []; published = w.published ++ r ∷ [] })
        calls.notify

  -- `_execute_review` once the review is there.
  unfoldable pub after_review : Job → Calls → ReviewResult → World S → Result TaskResult × World S
  unfolding on_published increment status_value
  after_review job calls r w =
      let counted = record w {
        counters =
            increment (codes "reviews_" ++ (status_value r.status ++ codes "_total")) 1 w.counters;
      } in
      if publishes job calls
      then on_published calls r counted calls.publish
      else on_notified calls r false counted calls.notify

  module _ (store : KeyStore S) (job : Job) (calls : Calls) where
    -- The review, by what it comes to, and what follows it.
    unfoldable pub on_reviewed : World S → Result ReviewResult → Result TaskResult × World S
    unfolding release after_review
    on_reviewed w (raised error) =
        (raised error, record w { claims = release store job.repo job.commit_sha w.claims })
    on_reviewed w (returned r) = after_review job calls r w

    -- The claim, and what follows it.
    unfoldable pub on_claim : World S → Bool × S → Result TaskResult × World S
    unfolding on_reviewed
    on_claim w (false, claims) = (returned skipped, record w { claims = claims })
    on_claim w (true, claims) = on_reviewed (record w { claims = claims }) calls.review

    unfoldable pub execute_review : World S → Result TaskResult × World S
    unfolding try_mark_processed on_claim
    execute_review w =
        on_claim w (try_mark_processed store job.repo job.commit_sha default_ttl_seconds w.claims)

  -- `_DLQOnFailureTask.on_failure`
  unfoldable pub on_failure : Job → Text → World S → World S
  unfolding increment
  on_failure job error w = record w {
    dead_letters =
        w.dead_letters
        ++ record { repo = job.repo; commit_sha = job.commit_sha; error = error } ∷ [];
    counters = increment (codes "dlq_pushes_total") 1 w.counters;
  }

  module _ (store : KeyStore S) (job : Job) (calls : ℕ → Calls) where
    -- What the task queue does with the decorator's options: it runs the task, and again after an
    -- exception as long as there is a retry left; the exception of the last run is the failure of the
    -- task. `calls i` is what the calls of run `i` come to.
    unfoldable pub retry_on : ℕ → ℕ → Result TaskResult × World S → Result TaskResult × World S
    unfolding execute_review on_failure
    retry_on i left (returned t, w) = (returned t, w)
    retry_on i zero (raised error, w) = (raised error, on_failure job error w)
    retry_on i (suc left) (raised error, w) =
        retry_on (suc i) left (execute_review store job (calls i) w)

    unfoldable pub review_commit_task : World S → Result TaskResult × World S
    unfolding retry_on
    review_commit_task w = retry_on 1 max_retries (execute_review store job (calls 0) w)
