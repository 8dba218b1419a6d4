-- ===== src/Analyzers/DictKeys/Guards.antt =====
-- What src/analyzers/dict_key_checker.py takes for a guard of a key.
use githubprojectforissueide.Prelude.{
  ◌≡◌, ◌↔◌, inl, inr, true, List, [], ◌∷◌, arith, Bool-cases, some, ◌&&◌, ap, any, refl, sym,
}
use githubprojectforissueide.Text.{Text, codes, text_eq, text_eq→eq, text_eq_refl}
use githubprojectforissueide.Analyzers.Tree.{
  Node, Constant, Comparison, member, not_member, string, field, nodes, left, comparators, func,
  value,
}
use githubprojectforissueide.Analyzers.Shapes.{
  holds, constant_of, comparisons_of, is_named, name_of, is_call, attr_of, is_attribute_on,
  calls_on, tests_membership, is_membership, constant_is,
}
use githubprojectforissueide.Analyzers.Paths.{In}
use githubprojectforissueide.Analyzers.Names.{holds_from}
use githubprojectforissueide.Analyzers.Handlers.{
  Handles, catches-Handles, Handles-catches, both_true, is_named_to, is_named_from, any_from,
  any_of,
}
use githubprojectforissueide.Analyzers.DictKeys.{guards_key}

-- `in`, or `not in`.
pub data Membership : Comparison → Type 0 where
  inside : Membership member
  outside : Membership not_member

-- A guard of the name `t` at the key `key`: a comparison with the key on its left, an `in` or a `not in`
-- among its operators, and the name among its right-hand sides; a call `t.get(…)`; or a `try` with a handler
-- for a key that is missing.
pub data GuardsKey (t key : Text) (g : Node) : Type 0 where
  compares :
      (ops : List Comparison) (op : Comparison) (l x : Node)
      → comparisons_of g ≡ some ops
      → In op ops
      → Membership op
      → field left g ≡ some l
      → constant_of l ≡ some (string key)
      → In x (nodes comparators g)
      → name_of x ≡ some t
      → GuardsKey t key g
  gets :
      (f x : Node)
      → is_call g ≡ true
      → field func g ≡ some f
      → attr_of f ≡ some (codes "get")
      → field value f ≡ some x
      → name_of x ≡ some t
      → GuardsKey t key g
  handles : Handles (codes "KeyError" ∷ codes "Exception" ∷ []) g → GuardsKey t key g

is_membership_to : (op : Comparison) → is_membership op ≡ true → Membership op
is_membership_to member h = inside
is_membership_to not_member h = outside
is_membership_to _ h = cc

is_membership_from : (op : Comparison) → Membership op → is_membership op ≡ true
is_membership_from _ inside = refl
is_membership_from _ outside = refl

constant_is_to : (t : Text) (c : Constant) → constant_is t c ≡ true → c ≡ string t
constant_is_to t (string s) h = ap string (text_eq→eq s t h)
constant_is_to t _ h = cc

GuardsKey-compared :
    (t key : Text) (g : Node)
    → tests_membership key g ≡ true
    → any (is_named t) (nodes comparators g) ≡ true
    → GuardsKey t key g
unfolding tests_membership
GuardsKey-compared t key g h named =
    let on_left = λ (l : Node). holds (constant_is key) (constant_of l) in
    let (of_ops, of_left) =
      both_true (holds (any is_membership) (comparisons_of g)) (holds on_left (field left g)) h in
    let (ops, e, one) = holds_from (any is_membership) (comparisons_of g) of_ops in
    let (op, m, membership) = any_from is_membership ops one in
    let (l, e_left, of_key) = holds_from on_left (field left g) of_left in
    let (c, literal, is_key) = holds_from (constant_is key) (constant_of l) of_key in
    let (x, there, same) = any_from (is_named t) (nodes comparators g) named in
    compares ops op l x e m (is_membership_to op membership) e_left
      (rw literal (ap some (constant_is_to key c is_key))) there (is_named_to t x same)

GuardsKey-gets :
    (t key : Text) (g : Node) → calls_on (text_eq (codes "get")) t g ≡ true → GuardsKey t key g
unfolding calls_on is_attribute_on
GuardsKey-gets t key g h =
    let is_get = λ (f : Node). is_attribute_on (text_eq (codes "get")) t f in
    let (call, of_func) = both_true (is_call g) (holds is_get (field func g)) h in
    let (f, e, attribute) = holds_from is_get (field func g) of_func in
    let (of_attr, of_value) =
      both_true (holds (text_eq (codes "get")) (attr_of f)) (holds (is_named t) (field value f))
        attribute in
    let (a, e_attr, get) = holds_from (text_eq (codes "get")) (attr_of f) of_attr in
    let (x, e_value, same) = holds_from (is_named t) (field value f) of_value in
    gets f x call e (rw e_attr (ap some (sym (text_eq→eq (codes "get") a get)))) e_value
      (is_named_to t x same)

guards_key_of : (t key : Text) (g : Node) → GuardsKey t key g → guards_key t key g ≡ true
unfolding guards_key tests_membership calls_on is_attribute_on
guards_key_of t key g (compares ops op l x e m membership e_left literal there named) =
    let one = any_of is_membership ops op m (is_membership_from op membership) in
    let on_right = any_of (is_named t) (nodes comparators g) x there (is_named_from t x named) in
    rw (e, one, e_left, literal, text_eq_refl key, on_right) refl
guards_key_of t key g (gets f x call e e_attr e_value named) =
    let same = is_named_from t x named in rw (call, e, e_attr, e_value, same) ground arith
guards_key_of t key g (handles u) =
    let caught = Handles-catches (codes "KeyError" ∷ codes "Exception" ∷ []) g u in ground arith

-- The test of a node says exactly whether the node is a guard.
pub guards_key_iff : (t key : Text) (g : Node) → (guards_key t key g ≡ true) ↔ GuardsKey t key g
unfolding guards_key
guards_key_iff t key g = (
  λ h. elim (Bool-cases (tests_membership key g && any (is_named t) (nodes comparators g))) [
    | inl compared ↦
        let (membership, named) =
          both_true (tests_membership key g) (any (is_named t) (nodes comparators g)) compared in
        GuardsKey-compared t key g membership named
    | inr not_compared ↦ elim (Bool-cases (calls_on (text_eq (codes "get")) t g)) [
      | inl got ↦ GuardsKey-gets t key g got
      | inr not_got ↦ handles (
          catches-Handles (codes "KeyError" ∷ codes "Exception" ∷ []) g
            (rw not_got at (rw not_compared at h)))
    ]
  ],
  guards_key_of t key g,
)
