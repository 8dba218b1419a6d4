-- ===== src/Analyzers/IndexGuard/Largest.antt =====
-- The guard of src/analyzers/index_guard_checker.py against a sequence that is too short.
use githubprojectforissueide.Prelude.{
  ℕ, ◌≤◌, ◌≡◌, refl, subst, true, List, [], some, any, not, ◌==◌, ==_iff, >>-eq-some, >>=-eq-some,
}
use githubprojectforissueide.Text.{Text}
use githubprojectforissueide.Analyzers.Paths.{In}
use githubprojectforissueide.Analyzers.Once.{by_side}
use githubprojectforissueide.Analyzers.IndexGuard.{
  max_indices, unguarded_index, int_value, guards_index, len_guard_covers, is_owned_by,
}
use githubprojectforissueide.Analyzers.Tree.{Node, Constant, walk, field, value, slice}
use githubprojectforissueide.Analyzers.Shapes.{
  filter_map, is_subscript, name_of, constant_of, one_of,
}
use githubprojectforissueide.Analyzers.Utils.{ParentMap, identity, param_names, owning_function}
use githubprojectforissueide.Analyzers.Members.{filter_map_iff}
use githubprojectforissueide.Analyzers.IndexGuard.Guards.{GuardsIndex, guards_index_iff}
use githubprojectforissueide.Analyzers.Handlers.{not_true}
use githubprojectforissueide.Analyzers.Names.{
  some_inj, any_none, any_none_of, holds_from, one_of_to, one_of_from, Unrepeated, names_of,
}
use githubprojectforissueide.Analyzers.IndexGuard.Maxima.{
  Access, max_indices-Covers, max_indices_from, max_indices-Unrepeated,
}

-- The accesses of a function that no guard covers.
abbrev pub unguarded_accesses : ParentMap → Node → List Access
unguarded_accesses pm scope = filter_map (unguarded_index pm scope) (walk scope)

-- A subscript of the parameter `t` at the literal index `i`, which stands in the function itself, where no
-- node of the function guards that index.
pub record UnguardedIndex (pm : ParentMap) (scope : Node) (t : Text) (i : ℕ × Text) (n : Node)
    : Type 0 where
  pub subscripts : is_subscript n ≡ true
  pub of_name : (s : Node) × (field value n ≡ some s) × (name_of s ≡ some t)
  pub is_param : In t (param_names scope)
  pub owned : (f : Node) × (owning_function pm n ≡ some f) × (identity f ≡ identity scope)
  pub at_index :
      (x : Node) × (c : Constant) × (field slice n ≡ some x)
      × (constant_of x ≡ some c)
      × (int_value c ≡ some i)
  pub unguarded : (g : Node) → In g (walk scope) → ¬ GuardsIndex t i.0 g

unguarded_index_from :
    (pm : ParentMap) (scope n : Node) (t : Text) (i : ℕ × Text)
    → unguarded_index pm scope n ≡ some (t, i)
    → UnguardedIndex pm scope t i n
unfolding unguarded_index len_guard_covers is_owned_by
unguarded_index_from pm scope n t i e =
    let (subscripts, e1) = >>-eq-some (is_subscript n) _ e in
    let (s, indexed, e2) = >>=-eq-some (field value n) _ e1 in
    let (u, named, e3) = >>=-eq-some (name_of s) _ e2 in
    let (param, e4) = >>-eq-some (one_of (param_names scope) u) _ e3 in
    let (owned, e5) = >>-eq-some (is_owned_by pm scope n) _ e4 in
    let (x, sliced, e6) = >>=-eq-some (field slice n) _ e5 in
    let (c, literal, e7) = >>=-eq-some (constant_of x) _ e6 in
    let (j, index, e8) = >>=-eq-some (int_value c) _ e7 in
    let (unguarded, e9) = >>-eq-some (not (any (guards_index u j.0) (walk scope))) _ e8 in
    let (f, owner, same) =
      holds_from (λ g. identity g == identity scope) (owning_function pm n) owned in
    let found : UnguardedIndex pm scope u j n = record {
      subscripts = subscripts;
      of_name = (s, indexed, named);
      is_param = one_of_to u (param_names scope) param;
      owned = (f, owner, (==_iff (identity f) (identity scope)).0 same);
      at_index = (x, c, sliced, literal, index);
      unguarded = λ g inside guard.
          let free = any_none (guards_index u j.0) (walk scope) unguarded g inside in
          let guards = (guards_index_iff u j.0 g).1 guard in cc;
    } in
    subst (λ (a : Access). UnguardedIndex pm scope a.0 a.1 n) (some_inj e9) found

unguarded_index_of :
    (pm : ParentMap) (scope n : Node) (t : Text) (i : ℕ × Text)
    → UnguardedIndex pm scope t i n
    → unguarded_index pm scope n ≡ some (t, i)
unfolding unguarded_index len_guard_covers is_owned_by
unguarded_index_of pm scope n t i u =
    let (s, indexed, named) = u.of_name in
    let (x, c, sliced, literal, index) = u.at_index in
    let (f, owner, same) = u.owned in
    let owned : (identity f == identity scope) ≡ true =
      (==_iff (identity f) (identity scope)).1 same in
    let param = one_of_from t (param_names scope) u.is_param in
    let free = any_none_of (guards_index t i.0) (walk scope) (λ g inside.
      not_true _ (λ guards. u.unguarded g inside ((guards_index_iff t i.0 g).0 guards))) in
    rw (u.subscripts, indexed, named, param, owner, owned, sliced, literal, index, free) refl

-- The guards of a function are one for each parameter, each at the index of an access in the
-- function itself that no node of the function guards, and at least as large as that of every such
-- access to the parameter. A node guards an index by a comparison that has `len` of the parameter
-- on its left and bounds the index, by an `if` whose test is the parameter alone, or by a `try`
-- with a handler that names IndexError or Exception.
pub max_indices_largest :
    (pm : ParentMap) (scope : Node)
    → let guards = max_indices [] (unguarded_accesses pm scope) in
      Unrepeated (names_of guards)
      × ((t : Text) (j : ℕ × Text)
          → In (t, j) guards
          → (n : Node) × In n (walk scope) × UnguardedIndex pm scope t j n)
      × ((t : Text) (i : ℕ × Text) (n : Node)
          → In n (walk scope)
          → UnguardedIndex pm scope t i n
          → (j : ℕ × Text) × In (t, j) guards × (i.0 ≤ j.0))
max_indices_largest pm scope =
    let accesses = unguarded_accesses pm scope in
    (
      max_indices-Unrepeated [] accesses tt,
      λ t j m.
          let there = by_side (λ n. absurd n) (λ n. n) (max_indices_from (t, j) [] accesses m) in
          let (n, inside, e) =
            (filter_map_iff (unguarded_index pm scope) (walk scope) (t, j)).0 there in
          (n, inside, unguarded_index_from pm scope n t j e),
      λ t i n inside u. max_indices-Covers t i [] accesses (
          (filter_map_iff (unguarded_index pm scope) (walk scope) (t, i)).1
            (n, inside, unguarded_index_of pm scope n t i u)),
    )
