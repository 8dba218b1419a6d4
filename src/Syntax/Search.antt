-- ===== src/Syntax/Search.antt =====
-- The search for the largest span that the interpreter accepts, in src/core/orchestrator.py.
use githubprojectforissueide.Prelude.{
  ℕ, zero, suc, ◌+◌, ◌≤◌, ◌<◌, ◌≡◌, ◌≢◌, List, Option, none, some, arith, ltb, Bool-cases, inl, inr,
}
use githubprojectforissueide.Text.{Text, codes, join_lines}
use githubprojectforissueide.Syntax.Base.{Python}
use githubprojectforissueide.Syntax.Lines.{largest_span}

-- The span that the search returns was made by `patch` and accepted.
pub largest_span-some :
    (py : Python) (patch : ℕ → Option (List Text)) (lineno n end_line : ℕ) (patched : List Text)
    → largest_span py patch lineno n ≡ some (end_line, patched)
    → (patch end_line ≡ some patched)
      × (py.compile (join_lines patched) (codes "<string>") ≡ none)
      × (lineno ≤ end_line)
      × (end_line < lineno + n)
unfolding largest_span
largest_span-some py patch lineno zero end_line patched h = cc
largest_span-some py patch lineno (suc n) end_line patched h =
    ground (arith, largest_span-some py patch lineno n end_line patched)

-- Where the search over the spans that end in the `n` lines from `lineno` on returned the one that
-- ends at `end_line`, and a span of these that ends later has patched lines, those lines do not
-- compile.
pub largest_span-largest :
    (py : Python) (patch : ℕ → Option (List Text)) (lineno n end_line : ℕ)
    (patched larger : List Text) (k : ℕ)
    → largest_span py patch lineno n ≡ some (end_line, patched)
    → k < n
    → end_line < lineno + k
    → patch (lineno + k) ≡ some larger
    → py.compile (join_lines larger) (codes "<string>") ≢ none
unfolding largest_span
largest_span-largest py patch lineno zero end_line patched larger k h b l p = absurd (omega arith)
largest_span-largest py patch lineno (suc n) end_line patched larger k h b l p =
    elim (Bool-cases (ltb k n)) [
      | inl below ↦
          λ a. ground (arith, largest_span-largest py patch lineno n end_line patched larger k)
      | inr top ↦
          let e : lineno + k ≡ lineno + n = ground arith in
          let p' : patch (lineno + n) ≡ some larger = rw e at p in λ a. ground arith
    ]
