-- ===== src/Analyzers/IndexGuard/Guards.antt =====
-- What src/analyzers/index_guard_checker.py takes for a guard of an index.
use githubprojectforissueide.Prelude.{
  ℕ, Bool, ◌+◌, ◌≤◌, ◌≡◌, ◌↔◌, inl, inr, refl, true, List, [], ◌∷◌, arith, Bool-cases, some, ◌&&◌,
  >>=-eq-some, ◌>>=◌, leb,
}
use githubprojectforissueide.Text.{Text, codes}
use githubprojectforissueide.Analyzers.Tree.{
  Node, Constant, Comparison, greater, greater_equal, field, nodes, left, comparators, test,
}
use githubprojectforissueide.Analyzers.Shapes.{
  holds, constant_of, comparisons_of, is_if, is_named, name_of,
}
use githubprojectforissueide.Analyzers.Division.{is_len_of_name}
use githubprojectforissueide.Analyzers.IndexGuard.{
  int_value, bound_covers, bounds_cover, guards_index,
}
use githubprojectforissueide.Analyzers.Names.{holds_from}
use githubprojectforissueide.Analyzers.Handlers.{
  Handles, catches-Handles, Handles-catches, both_true, is_named_to, is_named_from,
}

-- Among the comparisons, each with its own right-hand side, is one by `>` with a number from `i` on, or by
-- `>=` with a number beyond `i`.
pub data Bounded (i : ℕ) : List Comparison → List Node → Type 0 where
  above :
      (n : Node) (c : Constant) (v : ℕ × Text) (ops : List Comparison) (ns : List Node)
      → constant_of n ≡ some c
      → int_value c ≡ some v
      → i ≤ v.0
      → Bounded i (greater ∷ ops) (n ∷ ns)
  at_least :
      (n : Node) (c : Constant) (v : ℕ × Text) (ops : List Comparison) (ns : List Node)
      → constant_of n ≡ some c
      → int_value c ≡ some v
      → i + 1 ≤ v.0
      → Bounded i (greater_equal ∷ ops) (n ∷ ns)
  later :
      (op : Comparison) (n : Node) (ops : List Comparison) (ns : List Node)
      → Bounded i ops ns
      → Bounded i (op ∷ ops) (n ∷ ns)

-- A guard of the parameter `t` at the index `i`: a comparison whose left side is `len(t)` and which bounds
-- it, an `if` whose test is `t` alone, or a `try` with a handler for it.
pub data GuardsIndex (t : Text) (i : ℕ) (g : Node) : Type 0 where
  compares :
      (ops : List Comparison) (l : Node)
      → comparisons_of g ≡ some ops
      → field left g ≡ some l
      → is_len_of_name t l ≡ true
      → Bounded i ops (nodes comparators g)
      → GuardsIndex t i g
  tests :
      (x : Node) → is_if g ≡ true → field test g ≡ some x → name_of x ≡ some t → GuardsIndex t i g
  handles : Handles (codes "IndexError" ∷ codes "Exception" ∷ []) g → GuardsIndex t i g

leb→le : (m n : ℕ) → leb m n ≡ true → m ≤ n
leb→le m n h = ground arith

-- A literal that Python takes for an integer, with its value.
abbrev Literal : Node → ℕ × Text → Type 0
Literal n v = (c : Constant) × (constant_of n ≡ some c) × (int_value c ≡ some v)

-- The value of a literal on the right of a comparison.
right_side : (n : Node) (v : ℕ × Text) → (constant_of n >>= int_value) ≡ some v → Literal n v
right_side n v h = >>=-eq-some (constant_of n) int_value h

bounds_cover_first :
    (i : ℕ) (op : Comparison) (v : ℕ × Text) (n : Node) (ops : List Comparison) (ns : List Node)
    → Literal n v
    → bound_covers i op v.0 ≡ true
    → Bounded i (op ∷ ops) (n ∷ ns)
bounds_cover_first i greater v n ops ns (c, literal, index) h =
    above n c v ops ns literal index (leb→le i v.0 h)
bounds_cover_first i greater_equal v n ops ns (c, literal, index) h =
    at_least n c v ops ns literal index (leb→le (i + 1) v.0 h)
bounds_cover_first i _ v n ops ns l h = cc

bounds_cover-Bounded :
    (i : ℕ) (ops : List Comparison) (ns : List Node)
    → bounds_cover i ops ns ≡ true
    → Bounded i ops ns
unfolding bounds_cover
bounds_cover-Bounded i [] ns h = cc
bounds_cover-Bounded i (op ∷ ops) [] h = cc
bounds_cover-Bounded i (op ∷ ops) (n ∷ ns) h =
    elim (Bool-cases (holds (λ v. bound_covers i op v.0) (constant_of n >>= int_value))) [
      | inl first ↦
          let (v, literal, covers) =
            holds_from (λ v. bound_covers i op v.0) (constant_of n >>= int_value) first in
          bounds_cover_first i op v n ops ns (right_side n v literal) covers
      | inr other ↦ later op n ops ns (bounds_cover-Bounded i ops ns (rw other at h))
    ]

Bounded-bounds_cover :
    (i : ℕ) (ops : List Comparison) (ns : List Node)
    → Bounded i ops ns
    → bounds_cover i ops ns ≡ true
unfolding bounds_cover
Bounded-bounds_cover i _ _ (above n c v ops ns literal index le) = rw (literal, index) ground arith
Bounded-bounds_cover i _ _ (at_least n c v ops ns literal index le) =
    rw (literal, index) ground arith
Bounded-bounds_cover i _ _ (later op n ops ns rest) =
    let covered = Bounded-bounds_cover i ops ns rest in ground arith

abbrev compared : Text → ℕ → Node → Bool
compared t i g =
    holds
      (λ ops. holds (is_len_of_name t) (field left g) && bounds_cover i ops (nodes comparators g))
      (comparisons_of g)

guards_index_of : (t : Text) (i : ℕ) (g : Node) → GuardsIndex t i g → guards_index t i g ≡ true
unfolding guards_index
guards_index_of t i g (compares ops l e on_left len bound) =
    let bounds = Bounded-bounds_cover i ops (nodes comparators g) bound in
    rw (e, on_left, len, bounds) refl
guards_index_of t i g (tests x branches e named) =
    let same = is_named_from t x named in rw (branches, e, same) ground arith
guards_index_of t i g (handles u) =
    let caught = Handles-catches (codes "IndexError" ∷ codes "Exception" ∷ []) g u in ground arith

-- The test of a node says exactly whether the node is a guard.
pub guards_index_iff :
    (t : Text) (i : ℕ) (g : Node) → (guards_index t i g ≡ true) ↔ GuardsIndex t i g
unfolding guards_index
guards_index_iff t i g = (
  λ h. elim (Bool-cases (compared t i g)) [
    | inl yes_compared ↦
        let (ops, e, h1) =
          holds_from
            (λ ops.
              holds (is_len_of_name t) (field left g) && bounds_cover i ops (nodes comparators g))
            (comparisons_of g) yes_compared in
        let (of_len, bound) =
          both_true (holds (is_len_of_name t) (field left g))
            (bounds_cover i ops (nodes comparators g)) h1 in
        let (l, on_left, len) = holds_from (is_len_of_name t) (field left g) of_len in
        compares ops l e on_left len (bounds_cover-Bounded i ops (nodes comparators g) bound)
    | inr not_compared ↦ elim (Bool-cases (is_if g && holds (is_named t) (field test g))) [
      | inl tested ↦
          let (branches, named) = both_true (is_if g) (holds (is_named t) (field test g)) tested in
          let (x, e, same) = holds_from (is_named t) (field test g) named in
          tests x branches e (is_named_to t x same)
      | inr not_tested ↦ handles (
          catches-Handles (codes "IndexError" ∷ codes "Exception" ∷ []) g
            (rw not_tested at (rw not_compared at h)))
    ]
  ],
  guards_index_of t i g,
)
