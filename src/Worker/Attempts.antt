-- ===== src/Worker/Attempts.antt =====
-- What becomes of a review over the runs of its task.
use githubprojectforissueide.Prelude.{
  ℕ, zero, suc, ◌+◌, ◌≡◌, refl, sym, ap, ◌∙◌, subst, Bool, true, false, List, [], ◌∷◌, ◌++◌, arith,
}
use githubprojectforissueide.Text.{Text}
use githubprojectforissueide.Models.{ReviewResult}
use githubprojectforissueide.Worker.Store.{
  KeyStore, default_ttl_seconds, claim_key, try_mark_processed, release,
}
use githubprojectforissueide.Worker.{
  Result, returned, raised, Job, Calls, DeadLetter, World, TaskResult, skipped, on_reviewed,
  on_claim, execute_review, on_failure, retry_on, review_commit_task,
}

-- The key of a job.
abbrev pub key_of : Job → Text
key_of job = claim_key job.repo job.commit_sha

pair_eta : {S : Type 0} (p : Bool × S) {b : Bool} → p.0 ≡ b → p ≡ (b, p.1)
pair_eta p h = cc

-- The claims of a world after a call that claims the key of a job.
abbrev pub claimed : {S : Type 0} → KeyStore S → Job → World S → World S
claimed store job w = record w {
  claims = (store.set_nx (key_of job) default_ttl_seconds w.claims).1;
}

module _ {S : Type 0} (store : KeyStore S) (job : Job) where
  pub execute_free :
      (calls : Calls) (w : World S)
      → store.has (key_of job) w.claims ≡ false
      → execute_review store job calls w
        ≡ on_reviewed store job calls (claimed store job w) calls.review
  unfolding execute_review try_mark_processed on_claim
  execute_free calls w free = ap (on_claim store job calls w) (
      pair_eta (store.set_nx (key_of job) default_ttl_seconds w.claims)
        (store.set_nx_new (key_of job) default_ttl_seconds w.claims (omega arith) free))

  -- A run of a commit that is claimed is skipped, and changes nothing.
  pub execute_held :
      (calls : Calls) (w : World S)
      → store.has (key_of job) w.claims ≡ true
      → execute_review store job calls w ≡ (returned skipped, w)
  unfolding execute_review try_mark_processed on_claim
  execute_held calls w held =
      ap (on_claim store job calls w)
        (store.set_nx_old (key_of job) default_ttl_seconds w.claims (omega arith) held)

  -- A run whose review raises gives the claim back and changes nothing else.
  abbrev pub gave_back : World S → World S
  gave_back w = record w { claims = store.delete (key_of job) (claimed store job w).claims }

  pub execute_raised :
      (calls : Calls) (w : World S) (error : Text)
      → store.has (key_of job) w.claims ≡ false
      → calls.review ≡ raised error
      → execute_review store job calls w ≡ (raised error, gave_back w)
  unfolding on_reviewed release
  execute_raised calls w error free fails =
      execute_free calls w free ∙ ap (on_reviewed store job calls (claimed store job w)) fails

  -- A task that failed for good: the error of its last run, the claim given back, one dead letter.
  pub record Failed (error : Text) (letters : List DeadLetter) (published : List ReviewResult)
      (r : Result TaskResult × World S) : Type 0 where
    pub fails : r.0 ≡ raised error
    pub free : store.has (key_of job) r.1.claims ≡ false
    pub dead_letters :
        r.1.dead_letters
        ≡ letters ++ record { repo = job.repo; commit_sha = job.commit_sha; error = error } ∷ []
    pub same_published : r.1.published ≡ published

  retry_on-Failed :
      (calls : ℕ → Calls) (error : ℕ → Text) (i left : ℕ) (w : World S)
      → ((n : ℕ) → (calls n).review ≡ raised (error n))
      → store.has (key_of job) w.claims ≡ false
      → Failed
          (error (i + left))
          w.dead_letters
          w.published
          (retry_on store job calls (suc i) left (raised (error i), w))
  unfolding retry_on on_failure
  retry_on-Failed calls error i zero w fails free =
      let e : i + 0 ≡ i = omega arith in
      rw e (record { fails = refl; free = free; dead_letters = refl; same_published = refl })
  retry_on-Failed calls error i (suc left) w fails free =
      let next =
        retry_on-Failed calls error (suc i) left (gave_back w) fails
          (store.has-delete (key_of job) (claimed store job w).claims) in
      let e : suc i + left ≡ i + suc left = omega arith in
      subst
        (λ n.
          Failed (error n) w.dead_letters w.published
            (retry_on store job calls (suc i) (suc left) (raised (error i), w)))
        e
        (subst
          (λ p.
            Failed (error (suc i + left)) w.dead_letters w.published
              (retry_on store job calls (suc (suc i)) left p))
          (sym (execute_raised (calls (suc i)) w (error (suc i)) free (fails (suc i)))) next)

  -- Where the review raises in every run and the commit was not claimed, the task fails with the error
  -- of its fourth run: the claim is given back, so that the commit can be reviewed later, exactly one
  -- dead letter is put aside, and nothing is published.
  pub review_commit_task-Failed :
      (calls : ℕ → Calls) (error : ℕ → Text) (w : World S)
      → ((n : ℕ) → (calls n).review ≡ raised (error n))
      → store.has (key_of job) w.claims ≡ false
      → Failed (error 3) w.dead_letters w.published (review_commit_task store job calls w)
  unfolding review_commit_task
  review_commit_task-Failed calls error w fails free =
      subst (λ t. Failed (error 3) w.dead_letters w.published (retry_on store job calls 1 3 t))
        (sym (execute_raised (calls 0) w (error 0) free (fails 0)))
        (retry_on-Failed calls error 0 3 (gave_back w) fails
          (store.has-delete (key_of job) (claimed store job w).claims))
