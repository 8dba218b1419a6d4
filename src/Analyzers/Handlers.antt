-- ===== src/Analyzers/Handlers.antt =====
-- What the tests of src/analyzers/_ast_utils.py for handlers, and those for names, ask of a node.
use githubprojectforissueide.Prelude.{
  some, any, Bool, false, refl, ◌≡◌, inl, inr, subst, true, List, [], ◌∷◌, arith, Bool-cases, ◌&&◌,
  ap,
}
use githubprojectforissueide.Text.{Text, text_eq, text_eq→eq, text_eq_refl}
use githubprojectforissueide.Analyzers.Tree.{Node, field, nodes, handlers, exception_type}
use githubprojectforissueide.Analyzers.Shapes.{one_of, is_named, name_of, is_try}
use githubprojectforissueide.Analyzers.Utils.{catches, exception_names}
use githubprojectforissueide.Analyzers.Paths.{In}
use githubprojectforissueide.Analyzers.Names.{holds_from, one_of_to, one_of_from}

pub any_from :
    {A : Type 0} (p : A → Bool) (xs : List A) → any p xs ≡ true → (x : A) × In x xs × (p x ≡ true)
unfolding any
any_from p [] h = cc
any_from p (x ∷ xs) h = elim (Bool-cases (p x)) [
  | inl passes ↦ (x, inl refl, passes)
  | inr fails ↦ let (y, m, e) = any_from p xs (rw fails at h) in (y, inr m, e)
]

pub any_of :
    {A : Type 0} (p : A → Bool) (xs : List A) (x : A) → In x xs → p x ≡ true → any p xs ≡ true
unfolding any
any_of p [] x m e = absurd m
any_of p (y ∷ ys) x (inl q) e = let first = subst (λ z. p z ≡ true) q e in ground arith
any_of p (y ∷ ys) x (inr m) e = let later = any_of p ys x m e in ground arith

pub both_true : (a b : Bool) → (a && b) ≡ true → (a ≡ true) × (b ≡ true)
both_true true b h = (refl, h)
both_true false b h = cc

pub is_named_to : (t : Text) (n : Node) → is_named t n ≡ true → name_of n ≡ some t
unfolding is_named
is_named_to t n h =
    let (u, named, same) = holds_from (λ id. text_eq id t) (name_of n) h in
    rw named (ap some (text_eq→eq u t same))

pub is_named_from : (t : Text) (n : Node) → name_of n ≡ some t → is_named t n ≡ true
unfolding is_named
is_named_from t n h = rw h (text_eq_refl t)

-- A `try` with a handler that names one of some exceptions.
pub record Handles (texts : List Text) (n : Node) : Type 0 where
  pub tries : is_try n ≡ true
  pub handler : Node
  pub of_try : In handler (nodes handlers n)
  pub exception : Text
  pub named : In exception (exception_names (field exception_type handler))
  pub wanted : In exception texts

pub catches-Handles : (texts : List Text) (n : Node) → catches texts n ≡ true → Handles texts n
unfolding catches
catches-Handles texts n h =
    let handled = λ (k : Node). any (one_of texts) (exception_names (field exception_type k)) in
    let (tries, some_handler) = both_true (is_try n) (any handled (nodes handlers n)) h in
    let (k, of_try, catching) = any_from handled (nodes handlers n) some_handler in
    let (t, named, wanted) =
      any_from (one_of texts) (exception_names (field exception_type k)) catching in
    record {
      tries = tries;
      handler = k;
      of_try = of_try;
      exception = t;
      named = named;
      wanted = one_of_to t texts wanted;
    }

pub Handles-catches : (texts : List Text) (n : Node) → Handles texts n → catches texts n ≡ true
unfolding catches
Handles-catches texts n u =
    let handled = λ (k : Node). any (one_of texts) (exception_names (field exception_type k)) in
    let catching : handled u.handler ≡ true =
      any_of (one_of texts) (exception_names (field exception_type u.handler)) u.exception u.named
        (one_of_from u.exception texts u.wanted) in
    let some_handler = any_of handled (nodes handlers n) u.handler u.of_try catching in
    rw (u.tries, some_handler) refl

pub not_true : (b : Bool) → (¬ (b ≡ true)) → b ≡ false
not_true true h = absurd (h refl)
not_true false h = refl
