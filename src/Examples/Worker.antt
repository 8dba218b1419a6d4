-- ===== src/Examples/Worker.antt =====
-- Examples for src/worker/tasks.py, over a store that is a list of keys.
use githubprojectforissueide.Prelude.{
  ℕ, zero, suc, ◌≡◌, ◌<◌, refl, not, Bool, true, false, List, [], ◌∷◌, some, any, select, arith,
  Bool-cases, subst, ap, ◌||◌, inl, inr, if◌then◌else◌,
}
use githubprojectforissueide.Text.{Text, codes, text_eq, text_eq_refl, text_eq→eq}
use githubprojectforissueide.Models.{ReviewResult, completed}
use githubprojectforissueide.Worker.Store.{KeyStore}
use githubprojectforissueide.Worker.{
  returned, raised, posted, stopped, Job, Calls, World, review_commit_task,
}
use githubprojectforissueide.Worker.Attempts.{key_of, Failed, review_commit_task-Failed}
use githubprojectforissueide.Worker.Publishing.{
  Publishes, Published, Lost, review_commit_task-Published, unpublished_review-Lost,
}

abbrev Keys : Type 0
Keys = List Text

abbrev has_key : Text → Keys → Bool
has_key k s = any (text_eq k) s

abbrev set_key : Text → ℕ → Keys → Bool × Keys
set_key k ttl s = if has_key k s then (false, s) else (true, k ∷ s)

abbrev delete_key : Text → Keys → Keys
delete_key k s = select (λ j. not (text_eq k j)) s

set_key_new :
    (k : Text) (ttl : ℕ) (s : Keys) → 0 < ttl → has_key k s ≡ false → (set_key k ttl s).0 ≡ true
set_key_new k ttl s pos h = rw h

set_key_old :
    (k : Text) (ttl : ℕ) (s : Keys) → 0 < ttl → has_key k s ≡ true → set_key k ttl s ≡ (false, s)
set_key_old k ttl s pos h = rw h

has-set_key : (k : Text) (ttl : ℕ) (s : Keys) → 0 < ttl → has_key k (set_key k ttl s).1 ≡ true
unfolding any
has-set_key k ttl s pos = elim (Bool-cases (has_key k s)) [
  | inl held ↦ rw held held
  | inr free ↦ rw free (ground (arith, text_eq_refl k))
]

has-delete_key : (k : Text) (s : Keys) → has_key k (delete_key k s) ≡ false
unfolding any select
has-delete_key k [] = refl
has-delete_key k (j ∷ s) = elim (Bool-cases (text_eq k j)) [
  | inl same ↦ rw same (has-delete_key k s)
  | inr other ↦ let rest = has-delete_key k s in rw other (rw (other, rest))
]

has-set_key_other :
    (j k : Text) (ttl : ℕ) (s : Keys)
    → 0 < ttl
    → text_eq j k ≡ false
    → has_key j (set_key k ttl s).1 ≡ has_key j s
unfolding any
has-set_key_other j k ttl s pos h = elim (Bool-cases (has_key k s)) [
  | inl held ↦ rw held
  | inr free ↦ rw (free, h)
]

has-delete_key_other :
    (j k : Text) (s : Keys) → text_eq j k ≡ false → has_key j (delete_key k s) ≡ has_key j s
unfolding any select
has-delete_key_other j k [] h = refl
has-delete_key_other j k (l ∷ s) h = elim (Bool-cases (text_eq k l)) [
  | inl same ↦
      let apart : text_eq j l ≡ false = subst (λ t. text_eq j t ≡ false) (text_eq→eq k l same) h in
      rw (same, apart) (has-delete_key_other j k s h)
  | inr other ↦ rw other (ap (◌||◌ (text_eq j l)) (has-delete_key_other j k s h))
]

abbrev keys : KeyStore Keys
keys = record {
  has = has_key;
  set_nx = set_key;
  delete = delete_key;
  set_nx_new = set_key_new;
  set_nx_old = set_key_old;
  has-set_nx = has-set_key;
  has-delete = has-delete_key;
  has-set_nx_other = has-set_key_other;
  has-delete_other = has-delete_key_other;
}

abbrev job : Job
job = record { repo = codes "acme/widgets"; commit_sha = codes "abc"; pr_number = some 7 }

abbrev start : World Keys
start = record {
  claims = [];
  counters = λ name. 0;
  commented = [];
  published = [];
  notified = [];
  saved = [];
  audited = [];
  dead_letters = [];
}

abbrev clean : ReviewResult
clean = record {
  repo = job.repo;
  commit_sha = job.commit_sha;
  status = completed;
  findings = [];
  summary = codes "No issues found.";
}

-- Runs whose calls all return; whose review raises; and whose publication raises.
abbrev fine : Calls
fine = record {
  review = returned clean;
  publish = posted;
  notify = returned tt;
  save = raised (codes "no database");
  audit = returned tt;
  has_token = true;
}

abbrev unreviewed : Calls
unreviewed = record fine { review = raised (codes "out of memory") }

abbrev unposted : Calls
unposted = record fine { publish = stopped true (codes "403 Forbidden") }

start-free : keys.has (key_of job) start.claims ≡ false
unfolding any
start-free = refl

all_raise : (n : ℕ) → unreviewed.review ≡ raised (codes "out of memory")
all_raise n = refl

review_commit_task-Failed_example :
    Failed keys job
      (codes "out of memory")
      []
      []
      (review_commit_task keys job (λ n. unreviewed) start)
review_commit_task-Failed_example =
    review_commit_task-Failed keys job (λ n. unreviewed) (λ n. codes "out of memory") start
      all_raise start-free

-- The second run is fine.
abbrev second_fine : ℕ → Calls
second_fine zero = unreviewed
second_fine (suc n) = fine

first_raises : (k : ℕ) → k < 1 → (second_fine k).review ≡ raised (codes "out of memory")
first_raises zero h = refl
first_raises (suc k) h = absurd (omega arith)

fine-Publishes : Publishes keys job fine clean
fine-Publishes = record { reviews = refl; asked = refl; posts = refl; notifies = refl }

review_commit_task-Published_example :
    Published keys job clean [] [] (review_commit_task keys job second_fine start)
review_commit_task-Published_example =
    review_commit_task-Published keys job second_fine (λ n. codes "out of memory") clean 1 start
      (omega arith) first_raises fine-Publishes start-free

unpublished_review-Lost_example :
    Lost keys job clean true start (review_commit_task keys job (λ n. unposted) start)
unpublished_review-Lost_example =
    unpublished_review-Lost keys job (λ n. unposted) clean true (codes "403 Forbidden") start
      start-free refl refl refl
