-- ===== src/Text/Format.antt =====
-- Numbers in f-strings.
use githubprojectforissueide.Prelude.{
  ℕ, zero, suc, ◌+◌, ◌/◌, ◌%◌, List, [], ◌∷◌, ◌++◌, ltb, if◌then◌else◌,
}

-- The decimal digits of `n`, with fuel above `n`.
unfoldable pub digits : ℕ → ℕ → List ℕ
digits zero n = []
digits (suc f) n =
    let more = digits f (n / 10) ++ (48 + n % 10) ∷ [] in if ltb n 10 then (48 + n) ∷ [] else more

-- `f"{n}"`
unfoldable pub show : ℕ → List ℕ
unfolding digits
show n = digits (suc n) n
