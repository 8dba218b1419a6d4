-- ===== src/Analyzers/Paths.antt =====
-- Paths from the root of a syntax tree to its nodes, which the parent map of src/analyzers/_ast_utils.py
-- lets the checkers follow upwards.
use githubprojectforissueide.Prelude.{
  ℕ, zero, suc, ◌<◌, ◌≡◌, ◌≢◌, refl, sym, ap, ap₂, ◌∙◌, subst, List, [], ◌∷◌, ◌++◌, map, length,
  arith, ◌⊎◌, inl, inr, some, none, get_elem?, All,
}
use githubprojectforissueide.Analyzers.Tree.{Node, child_nodes, levels_below, concat, walk}
use githubprojectforissueide.Analyzers.Levels.{children_all, Chain, Chain-levels, children_all-walk}
use githubprojectforissueide.Analyzers.Utils.{
  identity, child_entries, all_entries, build_parent_map, get, parent_of,
}

abbrev pub In : {A : Type 0} → A → List A → Type 0
In a [] = ⊥
In a (x ∷ xs) = (a ≡ x) ⊎ In a xs

-- No number twice.
abbrev pub Distinct : List ℕ → Type 0
Distinct [] = Unit
Distinct (k ∷ ks) = All (λ j. j ≢ k) ks × Distinct ks

-- A path from the root of a tree down to a node.
pub data Under (root : Node) : Node → Type 0 where
  here : Under root root
  down : {p c : Node} → Under root p → In c (child_nodes p) → Under root c

unfoldable pub steps : {root n : Node} → Under root n → ℕ
steps here = 0
steps (down u m) = suc (steps u)

pub In-append_left : {A : Type 0} (a : A) (xs ys : List A) → In a xs → In a (xs ++ ys)
In-append_left a [] ys m = absurd m
In-append_left a (x ∷ xs) ys (inl e) = inl e
In-append_left a (x ∷ xs) ys (inr m) = inr (In-append_left a xs ys m)

pub In-append_right : {A : Type 0} (a : A) (xs ys : List A) → In a ys → In a (xs ++ ys)
In-append_right a [] ys m = m
In-append_right a (x ∷ xs) ys m = inr (In-append_right a xs ys m)

In-children_all :
    (c p : Node) (ns : List Node) → In c (child_nodes p) → In p ns → In c (children_all ns)
unfolding children_all
In-children_all c p [] m at = absurd at
In-children_all c p (n ∷ ns) m (inl e) =
    In-append_left c (child_nodes n) (children_all ns) (subst (λ q. In c (child_nodes q)) e m)
In-children_all c p (n ∷ ns) m (inr at) =
    In-append_right c (child_nodes n) (children_all ns) (In-children_all c p ns m at)

-- A level that has children is followed by them.
Chain-next :
    (l : List Node) (ls : List (List Node)) (d : ℕ) (x : List Node) (c : Node)
    → Chain l ls
    → get_elem? (l ∷ ls) d ≡ some x
    → In c (children_all x)
    → get_elem? (l ∷ ls) (suc d) ≡ some (children_all x)
Chain-next l [] zero x c ch at m =
    let e : l ≡ x = cc in absurd (subst (In c) (ap children_all (sym e) ∙ ch) m)
Chain-next l [] (suc d) x c ch at m = cc
Chain-next l (k ∷ ls) zero x c ch at m =
    let e : l ≡ x = cc in ap some (sym ch.0 ∙ ap children_all e)
Chain-next l (k ∷ ls) (suc d) x c ch at m = Chain-next k ls d x c ch.1 at m

-- A node stands on the level that its path is long.
Under-level :
    {root n : Node} (u : Under root n)
    → (l : List Node) × (get_elem? ((root ∷ []) ∷ levels_below root) (steps u) ≡ some l) × In n l
unfolding steps
Under-level {root} here = (root ∷ [], refl, inl refl)
Under-level {root} {n = c} (down {p} u m) =
    let (l, at, there) = Under-level u in
    let next = In-children_all c p l m there in
    (
      children_all l,
      Chain-next (root ∷ []) (levels_below root) (steps u) l c (Chain-levels root) at next,
      next,
    )

In-concat :
    (ls : List (List Node)) (d : ℕ) (l : List Node) (n : Node)
    → get_elem? ls d ≡ some l
    → In n l
    → In n (concat ls)
unfolding concat
In-concat [] d l n at m = cc
In-concat (k ∷ ls) zero l n at m =
    let e : k ≡ l = cc in In-append_left n k (concat ls) (subst (In n) (sym e) m)
In-concat (k ∷ ls) (suc d) l n at m = In-append_right n k (concat ls) (In-concat ls d l n at m)

-- A walk meets every node of the tree.
pub Under-walk : {root n : Node} → Under root n → In n (walk root)
unfolding walk concat
Under-walk {root} {n} u =
    let (l, at, m) = Under-level u in In-concat ((root ∷ []) ∷ levels_below root) (steps u) l n at m

get_elem?_lt {ℓ} :
    {A : Type ℓ} (xs : List A) (i : ℕ) (x : A) → get_elem? xs i ≡ some x → i < length xs
get_elem?_lt [] i x h = cc
get_elem?_lt (y ∷ xs) zero x h = omega arith
get_elem?_lt (y ∷ xs) (suc i) x h = omega (arith, get_elem?_lt xs i x h)

-- No path is longer than the bound of the loops.
pub steps-lt-depth : {root n : Node} (u : Under root n) → steps u < (build_parent_map root).depth
unfolding build_parent_map
steps-lt-depth {root} u =
    let (l, at, m) = Under-level u in get_elem?_lt ((root ∷ []) ∷ levels_below root) (steps u) l at

abbrev keys_of : List (ℕ × Node) → List ℕ
keys_of = map (λ e. e.0)

map-append {ℓ κ} :
    {A : Type ℓ} {B : Type κ} (f : A → B) (xs ys : List A) → map f (xs ++ ys) ≡ map f xs ++ map f ys
map-append f [] ys = refl
map-append f (x ∷ xs) ys = ap (◌∷◌ (f x)) (map-append f xs ys)

child_entries-keys : (n : Node) (cs : List Node) → keys_of (child_entries n cs) ≡ map identity cs
unfolding child_entries
child_entries-keys n [] = refl
child_entries-keys n (c ∷ cs) = ap (◌∷◌ (identity c)) (child_entries-keys n cs)

all_entries-keys : (ns : List Node) → keys_of (all_entries ns) ≡ map identity (children_all ns)
unfolding all_entries children_all
all_entries-keys [] = refl
all_entries-keys (n ∷ ns) =
    map-append (λ e. e.0) (child_entries n (child_nodes n)) (all_entries ns)
    ∙ ap₂ ◌++◌ (child_entries-keys n (child_nodes n)) (all_entries-keys ns)
    ∙ sym (map-append identity (child_nodes n) (children_all ns))

In-child_entries : (p c : Node) (cs : List Node) → In c cs → In (identity c, p) (child_entries p cs)
unfolding child_entries
In-child_entries p c [] m = absurd m
In-child_entries p c (d ∷ cs) (inl e) = inl (ap (λ x. (identity x, p)) e)
In-child_entries p c (d ∷ cs) (inr m) = inr (In-child_entries p c cs m)

In-all_entries :
    (p c : Node) (ns : List Node)
    → In c (child_nodes p)
    → In p ns
    → In (identity c, p) (all_entries ns)
unfolding all_entries
In-all_entries p c [] m at = absurd at
In-all_entries p c (n ∷ ns) m (inl e) =
    In-append_left _ (child_entries n (child_nodes n)) (all_entries ns) (
      subst (λ q. In (identity c, p) (child_entries q (child_nodes q))) e
        (In-child_entries p c (child_nodes p) m))
In-all_entries p c (n ∷ ns) m (inr at) =
    In-append_right _ (child_entries n (child_nodes n)) (all_entries ns)
      (In-all_entries p c ns m at)

get-missing : (k : ℕ) (es : List (ℕ × Node)) → All (λ j. j ≢ k) (keys_of es) → get k es ≡ none
unfolding get
get-missing k [] h = refl
get-missing k ((j, n) ∷ es) h = ground (arith, get-missing k es h.1)

All-In : (k j : ℕ) (ks : List ℕ) → All (λ i. i ≢ k) ks → In j ks → j ≢ k
All-In k j [] h m = absurd m
All-In k j (i ∷ ks) h (inl e) = rw e h.0
All-In k j (i ∷ ks) h (inr m) = All-In k j ks h.1 m

get-In :
    (k : ℕ) (n : Node) (es : List (ℕ × Node))
    → Distinct (keys_of es)
    → In (k, n) es
    → get k es ≡ some n
unfolding get
get-In k n [] d m = absurd m
get-In k n ((j, o) ∷ es) d (inl e) =
    let p : k ≡ j = ap (λ x. x.0) e in
    let q : n ≡ o = ap (λ x. x.1) e in
    rw (get-missing k es (subst (λ i. All (λ h. h ≢ i) (keys_of es)) (sym p) d.0)) ground arith
get-In k n ((j, o) ∷ es) d (inr m) = rw (get-In k n es d.1 m) refl

-- The nodes of a tree, which have an identity each.
abbrev pub HasIdentities : Node → Type 0
HasIdentities root = Distinct (map identity (walk root))

identities :
    (root : Node)
    → HasIdentities root
    → Distinct (identity root ∷ keys_of (build_parent_map root).parents)
unfolding build_parent_map
identities root d =
    subst Distinct
      (ap (map identity) (sym (children_all-walk root))
        ∙ ap (◌∷◌ (identity root)) (sym (all_entries-keys (walk root))))
      d

-- The parent map has the parent of every node but the root.
pub parent_of-child :
    (root p c : Node)
    → HasIdentities root
    → Under root p
    → In c (child_nodes p)
    → parent_of (build_parent_map root) c ≡ some p
unfolding parent_of build_parent_map
parent_of-child root p c d u m =
    get-In (identity c) p (all_entries (walk root)) (identities root d).1
      (In-all_entries p c (walk root) m (Under-walk u))

pub parent_of-root :
    (root : Node) → HasIdentities root → parent_of (build_parent_map root) root ≡ none
unfolding parent_of build_parent_map
parent_of-root root d = get-missing (identity root) (all_entries (walk root)) (identities root d).0
