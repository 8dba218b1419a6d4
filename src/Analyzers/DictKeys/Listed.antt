-- ===== src/Analyzers/DictKeys/Listed.antt =====
-- The keys that the guard of src/analyzers/dict_key_checker.py asks for.
use githubprojectforissueide.Prelude.{
  ℕ, ◌≡◌, ◌↔◌, ◌⊎◌, inl, inr, refl, sym, subst, true, false, List, [], ◌∷◌, Bool-cases, some, any,
  not, ◌==◌, ==_iff, >>-eq-some, >>=-eq-some, Option-cases, arith,
}
use githubprojectforissueide.Text.{Text, text_eq, text_eq→eq, text_eq_refl}
use githubprojectforissueide.Analyzers.Tree.{Node, walk, field, value, slice}
use githubprojectforissueide.Analyzers.Utils.{param_names, ParentMap, identity, owning_function}
use githubprojectforissueide.Analyzers.DictKeys.{
  last_entry, keys_by_name, unguarded_key, is_risky, guards_key, key_guarded,
}
use githubprojectforissueide.Analyzers.Shapes.{
  holds, filter_map, one_of, is_subscript, name_of, string_of,
}
use githubprojectforissueide.Analyzers.IndexGuard.{is_owned_by}
use githubprojectforissueide.Analyzers.Members.{filter_map_iff}
use githubprojectforissueide.Analyzers.Paths.{In}
use githubprojectforissueide.Analyzers.Once.{by_side}
use githubprojectforissueide.Analyzers.DictKeys.Guards.{GuardsKey, guards_key_iff}
use githubprojectforissueide.Analyzers.Handlers.{not_true}
use githubprojectforissueide.Analyzers.Names.{
  some_inj, any_none, any_none_of, holds_from, one_of_to, one_of_from, names_of,
}
use githubprojectforissueide.Analyzers.DictKeys.Keyed.{
  Lists, keys_by_name-Lists, keys_by_name_from, no-Lists, OneEach, keys_by_name-OneEach,
}

-- The accesses by a literal key of a function that no guard covers.
abbrev pub unguarded_keys : ParentMap → Node → List (Text × (ℕ × ℕ)) → List (Text × Text)
unguarded_keys pm scope locals = filter_map (unguarded_key pm scope locals) (walk scope)

last_entry_to :
    {A : Type 0} (t : Text) (es : List (Text × A))
    → holds (λ a. true) (last_entry t es) ≡ true
    → In t (names_of es)
unfolding last_entry
last_entry_to t [] h = cc
last_entry_to t ((u, a) ∷ es) h = elim (Option-cases (last_entry t es)) [
  | inl nothing ↦ elim (Bool-cases (text_eq u t)) [
    | inl same ↦ inl (sym (text_eq→eq u t same))
    | inr other ↦ let h1 = rw nothing at h in let h2 = rw other at h1 in cc
  ]
  | inr (b, e) ↦ inr (last_entry_to t es (rw e refl))
]

last_entry_from :
    {A : Type 0} (t : Text) (es : List (Text × A))
    → In t (names_of es)
    → holds (λ a. true) (last_entry t es) ≡ true
unfolding last_entry
last_entry_from t [] m = absurd m
last_entry_from t ((u, a) ∷ es) m = elim (Option-cases (last_entry t es)) [
  | inr (b, e) ↦ rw e refl
  | inl nothing ↦
      let h : holds (λ b. true) (last_entry t es) ≡ false = rw nothing refl in
      by_side
        (λ e.
          let same : text_eq u t ≡ true =
            subst (λ s. text_eq u s ≡ true) (sym e) (text_eq_refl u) in
          rw (nothing, same) refl)
        (λ n. let later = last_entry_from t es n in cc) m
]

is_risky_to :
    (scope : Node) (locals : List (Text × (ℕ × ℕ))) (t : Text)
    → is_risky scope locals t ≡ true
    → In t (param_names scope) ⊎ In t (names_of locals)
unfolding is_risky
is_risky_to scope locals t h = elim (Bool-cases (one_of (param_names scope) t)) [
  | inl param ↦ inl (one_of_to t (param_names scope) param)
  | inr other ↦ inr (last_entry_to t locals (rw other at h))
]

is_risky_from :
    (scope : Node) (locals : List (Text × (ℕ × ℕ))) (t : Text)
    → In t (param_names scope) ⊎ In t (names_of locals)
    → is_risky scope locals t ≡ true
unfolding is_risky
is_risky_from scope locals t (inl m) =
    let param = one_of_from t (param_names scope) m in ground arith
is_risky_from scope locals t (inr m) = let assigned = last_entry_from t locals m in ground arith

-- A subscript of `t`, a parameter or a name that is assigned a response, by the literal key `key`, which
-- stands in the function itself, where no node of the function guards that key.
pub record UnguardedKey (pm : ParentMap) (scope : Node) (locals : List (Text × (ℕ × ℕ)))
    (t key : Text) (n : Node) : Type 0 where
  pub subscripts : is_subscript n ≡ true
  pub of_name : (s : Node) × (field value n ≡ some s) × (name_of s ≡ some t)
  pub risky : In t (param_names scope) ⊎ In t (names_of locals)
  pub owned : (f : Node) × (owning_function pm n ≡ some f) × (identity f ≡ identity scope)
  pub by_key : (x : Node) × (field slice n ≡ some x) × (string_of x ≡ some key)
  pub unguarded : (g : Node) → In g (walk scope) → ¬ GuardsKey t key g

module _ (pm : ParentMap) (scope : Node) (locals : List (Text × (ℕ × ℕ))) where
  unguarded_key_from :
      (n : Node) (t key : Text)
      → unguarded_key pm scope locals n ≡ some (t, key)
      → UnguardedKey pm scope locals t key n
  unfolding unguarded_key key_guarded is_owned_by
  unguarded_key_from n t key e =
      let (subscripts, e1) = >>-eq-some (is_subscript n) _ e in
      let (s, indexed, e2) = >>=-eq-some (field value n) _ e1 in
      let (u, named, e3) = >>=-eq-some (name_of s) _ e2 in
      let (risky, e4) = >>-eq-some (is_risky scope locals u) _ e3 in
      let (owned, e5) = >>-eq-some (is_owned_by pm scope n) _ e4 in
      let (x, sliced, e6) = >>=-eq-some (field slice n) _ e5 in
      let (k, literal, e7) = >>=-eq-some (string_of x) _ e6 in
      let (unguarded, e8) = >>-eq-some (not (any (guards_key u k) (walk scope))) _ e7 in
      let (f, owner, same) =
        holds_from (λ g. identity g == identity scope) (owning_function pm n) owned in
      let found : UnguardedKey pm scope locals u k n = record {
        subscripts = subscripts;
        of_name = (s, indexed, named);
        risky = is_risky_to scope locals u risky;
        owned = (f, owner, (==_iff (identity f) (identity scope)).0 same);
        by_key = (x, sliced, literal);
        unguarded = λ g inside guard.
            let free = any_none (guards_key u k) (walk scope) unguarded g inside in
            let guards = (guards_key_iff u k g).1 guard in cc;
      } in
      subst (λ (a : Text × Text). UnguardedKey pm scope locals a.0 a.1 n) (some_inj e8) found

  unguarded_key_of :
      (n : Node) (t key : Text)
      → UnguardedKey pm scope locals t key n
      → unguarded_key pm scope locals n ≡ some (t, key)
  unfolding unguarded_key key_guarded is_owned_by
  unguarded_key_of n t key u =
      let (s, indexed, named) = u.of_name in
      let (x, sliced, literal) = u.by_key in
      let (f, owner, same) = u.owned in
      let owned : (identity f == identity scope) ≡ true =
        (==_iff (identity f) (identity scope)).1 same in
      let free = any_none_of (guards_key t key) (walk scope) (λ g inside.
        not_true _ (λ guards. u.unguarded g inside ((guards_key_iff t key g).0 guards))) in
      rw
        (
          u.subscripts,
          indexed,
          named,
          is_risky_from scope locals t u.risky,
          owner,
          owned,
          sliced,
          literal,
          free,
        )
        refl

-- The guards of a function are one for each name, and ask for no key twice. They ask for exactly
-- the keys by which the function itself accesses a parameter, or a name in the list of those that
-- are assigned a response, where no node of the function guards that key: each under the name that
-- is accessed. A node guards a key by a test for the key, by `in` or `not in`, with the name on the
-- right, by a call of `get` of the name, or by a `try` with a handler that names KeyError or
-- Exception.
pub keys_by_name_iff :
    (pm : ParentMap) (scope : Node) (locals : List (Text × (ℕ × ℕ)))
    → let guards = keys_by_name [] (unguarded_keys pm scope locals) in
      OneEach guards
      × ((t key : Text)
          → Lists t key guards
            ↔ ((n : Node) × In n (walk scope) × UnguardedKey pm scope locals t key n))
keys_by_name_iff pm scope locals =
    let accesses = unguarded_keys pm scope locals in
    (
      keys_by_name-OneEach [] accesses (tt, tt),
      λ t key. (
        λ l.
            let there =
              by_side (λ n. absurd (no-Lists t key n)) (λ m. m)
                (keys_by_name_from t key [] accesses l) in
            let (n, inside, e) =
              (filter_map_iff (unguarded_key pm scope locals) (walk scope) (t, key)).0 there in
            (n, inside, unguarded_key_from pm scope locals n t key e),
        λ (n, inside, u). keys_by_name-Lists t key [] accesses (
            (filter_map_iff (unguarded_key pm scope locals) (walk scope) (t, key)).1
              (n, inside, unguarded_key_of pm scope locals n t key u)),
      ),
    )
