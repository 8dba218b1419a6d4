-- ===== src/Worker/Publishing.antt =====
-- When the result of a review task is published.
use githubprojectforissueide.Prelude.{
  ℕ, zero, suc, ◌+◌, ◌≡◌, ◌≤◌, ◌<◌, refl, sym, ap, ◌∙◌, subst, Bool, true, false, List, [], ◌∷◌,
  ◌++◌, arith, length, if◌then◌else◌, Bool-cases, inl, inr, ltb, ltb→lt,
}
use githubprojectforissueide.Text.{Text, codes}
use githubprojectforissueide.Models.{ReviewResult, critical_count, status_value}
use githubprojectforissueide.Gate.{decide, gate_reason}
use githubprojectforissueide.Worker.Store.{KeyStore, default_ttl_seconds, increment}
use githubprojectforissueide.Worker.{
  Result, returned, raised, posted, stopped, Job, Calls, DeadLetter, World, TaskResult, skipped,
  finished, publishes, after_review, on_notified, on_published, on_reviewed, record_review,
  execute_review, retry_on, review_commit_task,
}
use githubprojectforissueide.Worker.Attempts.{
  key_of, claimed, execute_free, execute_held, gave_back, execute_raised,
}

module _ {S : Type 0} (store : KeyStore S) (job : Job) where
  -- A run that publishes its review and is notified of it.
  pub record Publishes (calls : Calls) (r : ReviewResult) : Type 0 where
    pub reviews : calls.review ≡ returned r
    pub asked : publishes job calls ≡ true
    pub posts : calls.publish ≡ posted
    pub notifies : calls.notify ≡ returned tt

  pub record Published (r : ReviewResult) (letters : List DeadLetter)
      (published : List ReviewResult) (t : Result TaskResult × World S) : Type 0 where
    pub ends :
        t.0
        ≡ returned (
            finished r.status
              (decide r)
              (gate_reason r)
              (length r.findings)
              (critical_count r)
              true)
    pub held : store.has (key_of job) t.1.claims ≡ true
    pub same_letters : t.1.dead_letters ≡ letters
    pub once : t.1.published ≡ published ++ r ∷ []

  -- The world once the status of a review is counted.
  abbrev counted : ReviewResult → World S → World S
  counted r w = record w {
    counters =
        increment (codes "reviews_" ++ (status_value r.status ++ codes "_total")) 1 w.counters;
  }

  after_asked :
      (calls : Calls) (r : ReviewResult) (w : World S)
      → publishes job calls ≡ true
      → after_review job calls r w ≡ on_published calls r (counted r w) calls.publish
  unfolding after_review
  after_asked calls r w asked =
      ap
        (λ b.
          if b
          then on_published calls r (counted r w) calls.publish
          else on_notified calls r false (counted r w) calls.notify)
        asked

  execute-Published :
      (calls : Calls) (r : ReviewResult) (w : World S)
      → store.has (key_of job) w.claims ≡ false
      → Publishes calls r
      → Published r w.dead_letters w.published (execute_review store job calls w)
  unfolding on_reviewed on_published on_notified record_review
  execute-Published calls r w free p =
      let w1 = claimed store job w in
      let start =
        execute_free store job calls w free
        ∙ ap (on_reviewed store job calls w1) p.reviews
        ∙ after_asked calls r w1 p.asked
        ∙ ap (on_published calls r (counted r w1)) p.posts
        ∙ ap
            (on_notified calls r true (record (counted r w1) {
              commented = w.commented ++ r ∷ [];
              published = w.published ++ r ∷ [];
            }))
            p.notifies in
      subst (Published r w.dead_letters w.published) (sym start) (record {
        ends = refl;
        held = store.has-set_nx (key_of job) default_ttl_seconds w.claims (omega arith);
        same_letters = refl;
        once = refl;
      })

  retry_returned :
      (calls : ℕ → Calls) (i left : ℕ) (t : Result TaskResult × World S) {x : TaskResult}
      → t.0 ≡ returned x
      → retry_on store job calls i left t ≡ t
  unfolding retry_on
  retry_returned calls i left (returned y, w) h = refl
  retry_returned calls i left (raised error, w) h = cc

  retry_on-Published :
      (calls : ℕ → Calls) (error : ℕ → Text) (r : ReviewResult) (n i left : ℕ) (w : World S)
      → ((k : ℕ) → k < n → (calls k).review ≡ raised (error k))
      → Publishes (calls n) r
      → i < n
      → n ≤ i + left
      → store.has (key_of job) w.claims ≡ false
      → Published r w.dead_letters w.published
          (retry_on store job calls (suc i) left (raised (error i), w))
  unfolding retry_on
  retry_on-Published calls error r n i zero w fails p below enough free = absurd (omega arith)
  retry_on-Published calls error r n i (suc left) w fails p below enough free =
      elim (Bool-cases (ltb (suc i) n)) [
        | inl again ↦
            let more : suc i < n = ltb→lt (suc i) n again in
            subst
              (λ t.
                Published r w.dead_letters w.published
                  (retry_on store job calls (suc (suc i)) left t))
              (sym (
                execute_raised store job (calls (suc i)) w (error (suc i)) free
                  (fails (suc i) more)))
              (retry_on-Published calls error r n (suc i) left (gave_back store job w) fails p more
                (omega arith) (store.has-delete (key_of job) (claimed store job w).claims))
        | inr last ↦
            let e : n ≡ suc i = ground arith in
            let done =
              execute-Published (calls (suc i)) r w free (subst (λ k. Publishes (calls k) r) e p) in
            subst (Published r w.dead_letters w.published)
              (sym (
                retry_returned calls (suc (suc i)) left (execute_review store job (calls (suc i)) w)
                  done.ends))
              done
      ]

  -- Where the commit was not claimed, the review raises in the first `n` runs, of at most 3, and the
  -- next run reviews, publishes and notifies, the task ends with the result of that review: it is
  -- published once, the commit stays claimed, and no dead letter is put aside.
  pub review_commit_task-Published :
      (calls : ℕ → Calls) (error : ℕ → Text) (r : ReviewResult) (n : ℕ) (w : World S)
      → n ≤ 3
      → ((k : ℕ) → k < n → (calls k).review ≡ raised (error k))
      → Publishes (calls n) r
      → store.has (key_of job) w.claims ≡ false
      → Published r w.dead_letters w.published (review_commit_task store job calls w)
  unfolding review_commit_task
  review_commit_task-Published calls error r zero w few fails p free =
      let done = execute-Published (calls 0) r w free p in
      subst (Published r w.dead_letters w.published)
        (sym (retry_returned calls 1 3 (execute_review store job (calls 0) w) done.ends)) done
  review_commit_task-Published calls error r (suc n) w few fails p free =
      subst (λ t. Published r w.dead_letters w.published (retry_on store job calls 1 3 t))
        (sym (execute_raised store job (calls 0) w (error 0) free (fails 0 (omega arith))))
        (retry_on-Published calls error r (suc n) 0 3 (gave_back store job w) fails p (omega arith)
          (omega arith) (store.has-delete (key_of job) (claimed store job w).claims))

  -- A task whose review is never published: skipped, with the commit claimed, nobody told, and a summary
  -- comment at most.
  pub record Lost (r : ReviewResult) (after_comment : Bool) (w : World S)
      (t : Result TaskResult × World S) : Type 0 where
    pub ends : t.0 ≡ returned skipped
    pub held : store.has (key_of job) t.1.claims ≡ true
    pub same_published : t.1.published ≡ w.published
    pub same_notified : t.1.notified ≡ w.notified
    pub same_saved : t.1.saved ≡ w.saved
    pub same_letters : t.1.dead_letters ≡ w.dead_letters
    pub comments : t.1.commented ≡ w.commented ++ (if after_comment then r ∷ [] else [])

  -- Where the commit was not claimed, the first run reviews it, and its call of `publish_review` raises,
  -- before or after the summary comment is posted, the task ends as skipped, whatever its retries would do:
  -- the publication never completes, nobody is notified, the review is not saved, no dead letter is put
  -- aside, and the commit stays claimed; the comment is there only if it was posted before the exception.
  pub unpublished_review-Lost :
      (calls : ℕ → Calls) (r : ReviewResult) (after_comment : Bool) (error : Text) (w : World S)
      → store.has (key_of job) w.claims ≡ false
      → (calls 0).review ≡ returned r
      → publishes job (calls 0) ≡ true
      → (calls 0).publish ≡ stopped after_comment error
      → Lost r after_comment w (review_commit_task store job calls w)
  unfolding review_commit_task retry_on on_reviewed on_published
  unpublished_review-Lost calls r after_comment error w free reviews asked fails =
      let w1 = claimed store job w in
      let held = store.has-set_nx (key_of job) default_ttl_seconds w.claims (omega arith) in
      let left : World S = record (counted r w1) {
        commented = w.commented ++ (if after_comment then r ∷ [] else []);
      } in
      let first =
        execute_free store job (calls 0) w free
        ∙ ap (on_reviewed store job (calls 0) w1) reviews
        ∙ after_asked (calls 0) r w1 asked
        ∙ ap (on_published (calls 0) r (counted r w1)) fails in
      let second = execute_held store job (calls 1) left held in
      let whole : review_commit_task store job calls w ≡ (returned skipped, left) =
        ap (retry_on store job calls 1 3) first ∙ ap (retry_on store job calls 2 2) second in
      subst (Lost r after_comment w) (sym whole) (record {
        ends = refl;
        held = held;
        same_published = refl;
        same_notified = refl;
        same_saved = refl;
        same_letters = refl;
        comments = refl;
      })
