-- ===== src/Analyzers/DictKeys/Keyed.antt =====
-- The keys that src/analyzers/dict_key_checker.py lists for each name.
use githubprojectforissueide.Prelude.{
  ◌≡◌, ◌⊎◌, ◌∙◌, inl, inr, refl, sym, ap, ap₂, subst, true, false, List, [], ◌∷◌, ◌++◌, Bool-cases,
  if◌then◌else◌, All,
}
use githubprojectforissueide.Text.{Text, text_eq, text_eq→eq}
use githubprojectforissueide.Analyzers.Shapes.{one_of}
use githubprojectforissueide.Analyzers.Paths.{In}
use githubprojectforissueide.Analyzers.Once.{by_side}
use githubprojectforissueide.Analyzers.DictKeys.{add_key, keys_by_name}
use githubprojectforissueide.Analyzers.Names.{
  one_of_to, one_of_from, Unrepeated, names_of, with_name, with_name-Unrepeated, snoc-Unrepeated,
}

-- An entry for a name with a key.
abbrev pub Lists : Text → Text → List (Text × List Text) → Type 0
Lists t key es = (ks : List Text) × In (t, ks) es × In key ks

-- The keys of an entry, and one more, unless it is there.
abbrev with_key : List Text → Text → List Text
with_key ks key = if one_of ks key then ks else ks ++ key ∷ []

add_key_there :
    (t u key : Text) (ks : List Text) (es : List (Text × List Text))
    → text_eq u t ≡ true
    → add_key t key ((u, ks) ∷ es) ≡ (u, with_key ks key) ∷ es
unfolding add_key
add_key_there t u key ks es h = rw (add_key, h) refl

add_key_on :
    (t u key : Text) (ks : List Text) (es : List (Text × List Text))
    → text_eq u t ≡ false
    → add_key t key ((u, ks) ∷ es) ≡ (u, ks) ∷ add_key t key es
unfolding add_key
add_key_on t u key ks es h = rw (add_key, h) refl

In-snoc : (key : Text) (ks : List Text) → In key (ks ++ key ∷ [])
In-snoc key [] = inl refl
In-snoc key (k ∷ ks) = inr (In-snoc key ks)

In-before : (k key : Text) (ks : List Text) → In k ks → In k (ks ++ key ∷ [])
In-before k key [] m = absurd m
In-before k key (j ∷ ks) (inl e) = inl e
In-before k key (j ∷ ks) (inr m) = inr (In-before k key ks m)

snoc-cases : (k key : Text) (ks : List Text) → In k (ks ++ key ∷ []) → (k ≡ key) ⊎ In k ks
snoc-cases k key [] m = by_side inl (λ n. absurd n) m
snoc-cases k key (j ∷ ks) (inl e) = inr (inl e)
snoc-cases k key (j ∷ ks) (inr m) = by_side inl (λ n. inr (inr n)) (snoc-cases k key ks m)

with_key-new : (ks : List Text) (key : Text) → In key (with_key ks key)
with_key-new ks key = elim (Bool-cases (one_of ks key)) [
  | inl old ↦ rw old (one_of_to key ks old)
  | inr new ↦ rw new (In-snoc key ks)
]

with_key-old : (ks : List Text) (key k : Text) → In k ks → In k (with_key ks key)
with_key-old ks key k m = elim (Bool-cases (one_of ks key)) [
  | inl old ↦ rw old m
  | inr new ↦ rw new (In-before k key ks m)
]

with_key_from : (ks : List Text) (key k : Text) → In k (with_key ks key) → (k ≡ key) ⊎ In k ks
with_key_from ks key k m = elim (Bool-cases (one_of ks key)) [
  | inl old ↦ inr (rw old at m)
  | inr new ↦ snoc-cases k key ks (rw new at m)
]

Lists-later :
    (t key : Text) (e : Text × List Text) (es : List (Text × List Text))
    → Lists t key es
    → Lists t key (e ∷ es)
Lists-later t key e es (ks, m, n) = (ks, inr m, n)

add_key-Lists_new : (t key : Text) (es : List (Text × List Text)) → Lists t key (add_key t key es)
unfolding add_key
add_key-Lists_new t key [] = (key ∷ [], inl refl, inl refl)
add_key-Lists_new t key ((u, ks) ∷ es) = elim (Bool-cases (text_eq u t)) [
  | inl h ↦ subst (Lists t key) (sym (add_key_there t u key ks es h)) (
    with_key ks key,
    inl (ap (λ (s : Text). (s, with_key ks key)) (sym (text_eq→eq u t h))),
    with_key-new ks key,
  )
  | inr h ↦
      subst (Lists t key) (sym (add_key_on t u key ks es h))
        (Lists-later t key (u, ks) (add_key t key es) (add_key-Lists_new t key es))
]

add_key-Lists :
    (s k t key : Text) (es : List (Text × List Text)) → Lists s k es → Lists s k (add_key t key es)
add_key-Lists s k t key [] (ks, m, n) = absurd m
add_key-Lists s k t key ((u, old) ∷ es) (ks, m, n) = elim (Bool-cases (text_eq u t)) [
  | inl h ↦ subst (Lists s k) (sym (add_key_there t u key old es h)) (
      by_side
        (λ (e : (s, ks) ≡ (u, old)). (
          with_key old key,
          inl (ap (λ (x : Text × List Text). (x.0, with_key old key)) e),
          with_key-old old key k (subst (In k) (ap (λ (x : Text × List Text). x.1) e) n),
        ))
        (λ later. (ks, inr later, n)) m)
  | inr h ↦ subst (Lists s k) (sym (add_key_on t u key old es h)) (
      by_side (λ e. (ks, inl e, n))
        (λ later.
          Lists-later s k (u, old) (add_key t key es) (add_key-Lists s k t key es (ks, later, n)))
        m)
]

-- The new key of a name.
abbrev IsNew : Text → Text → Text → Text → Type 0
IsNew t key s k = (s ≡ t) × (k ≡ key)

In-single : {k key : Text} → In k (key ∷ []) → k ≡ key
In-single (inl e) = e
In-single (inr n) = absurd n

-- A key is listed because it was, or because it is the new one.
add_key_from :
    (t key s k : Text) (es : List (Text × List Text))
    → Lists s k (add_key t key es)
    → IsNew t key s k ⊎ Lists s k es
unfolding add_key
add_key_from t key s k [] (ks, m, n) =
    by_side
      (λ (e : (s, ks) ≡ (t, key ∷ [])). inl (
        ap (λ (x : Text × List Text). x.0) e,
        In-single (subst (In k) (ap (λ (x : Text × List Text). x.1) e) n),
      ))
      (λ none_there. absurd none_there) m
add_key_from t key s k ((u, old) ∷ es) l = elim (Bool-cases (text_eq u t)) [
  | inl h ↦
      let (ks, m, n) = subst (Lists s k) (add_key_there t u key old es h) l in
      by_side
        (λ (e : (s, ks) ≡ (u, with_key old key)).
          by_side (λ new. inl (ap (λ (x : Text × List Text). x.0) e ∙ text_eq→eq u t h, new))
            (λ there. inr (old, inl (ap (λ (x : Text × List Text). (x.0, old)) e), there))
            (with_key_from old key k (subst (In k) (ap (λ (x : Text × List Text). x.1) e) n)))
        (λ later. inr (ks, inr later, n)) m
  | inr h ↦
      let (ks, m, n) = subst (Lists s k) (add_key_on t u key old es h) l in
      by_side (λ e. inr (ks, inl e, n))
        (λ later.
          by_side inl (λ there. inr (Lists-later s k (u, old) es there))
            (add_key_from t key s k es (ks, later, n)))
        m
]

keys_by_name_keep :
    (s k : Text) (es : List (Text × List Text)) (xs : List (Text × Text))
    → Lists s k es
    → Lists s k (keys_by_name es xs)
unfolding keys_by_name
keys_by_name_keep s k es [] l = l
keys_by_name_keep s k es ((t, key) ∷ xs) l =
    keys_by_name_keep s k (add_key t key es) xs (add_key-Lists s k t key es l)

pub keys_by_name-Lists :
    (s k : Text) (es : List (Text × List Text)) (xs : List (Text × Text))
    → In (s, k) xs
    → Lists s k (keys_by_name es xs)
unfolding keys_by_name
keys_by_name-Lists s k es [] m = absurd m
keys_by_name-Lists s k es ((t, key) ∷ xs) (inl e) =
    keys_by_name_keep s k (add_key t key es) xs
      (subst (λ (x : Text × Text). Lists s k (add_key x.0 x.1 es)) e (add_key-Lists_new s k es))
keys_by_name-Lists s k es ((t, key) ∷ xs) (inr m) = keys_by_name-Lists s k (add_key t key es) xs m

pub keys_by_name_from :
    (s k : Text) (es : List (Text × List Text)) (xs : List (Text × Text))
    → Lists s k (keys_by_name es xs)
    → Lists s k es ⊎ In (s, k) xs
unfolding keys_by_name
keys_by_name_from s k es [] l = inl l
keys_by_name_from s k es ((t, key) ∷ xs) l =
    by_side
      (λ there.
        by_side (λ (new : IsNew t key s k). inr (inl (ap₂ (λ (a b : Text). (a, b)) new.0 new.1)))
          inl (add_key_from t key s k es there))
      (λ later. inr (inr later)) (keys_by_name_from s k (add_key t key es) xs l)

pub no-Lists : (t k : Text) → Lists t k [] → ⊥
no-Lists t k (ks, m, n) = m

add_key-names :
    (t key : Text) (es : List (Text × List Text))
    → names_of (add_key t key es) ≡ with_name t (names_of es)
unfolding add_key with_name
add_key-names t key [] = refl
add_key-names t key ((u, ks) ∷ es) = elim (Bool-cases (text_eq u t)) [
  | inl same ↦ rw same refl
  | inr other ↦ rw other (ap (◌∷◌ u) (add_key-names t key es))
]

with_key-Unrepeated : (ks : List Text) (key : Text) → Unrepeated ks → Unrepeated (with_key ks key)
with_key-Unrepeated ks key h = elim (Bool-cases (one_of ks key)) [
  | inl old ↦ rw old h
  | inr new ↦ rw new (snoc-Unrepeated key ks h (λ m. let there = one_of_from key ks m in cc))
]

-- No name twice, and no key twice under a name.
abbrev pub OneEach : List (Text × List Text) → Type 0
OneEach es = Unrepeated (names_of es) × All (λ (e : Text × List Text). Unrepeated e.1) es

add_key-keys :
    (t key : Text) (es : List (Text × List Text))
    → All (λ (e : Text × List Text). Unrepeated e.1) es
    → All (λ (e : Text × List Text). Unrepeated e.1) (add_key t key es)
unfolding add_key
add_key-keys t key [] h = ((λ n. n, tt), tt)
add_key-keys t key ((u, ks) ∷ es) h = elim (Bool-cases (text_eq u t)) [
  | inl same ↦ rw same (with_key-Unrepeated ks key h.0, h.1)
  | inr other ↦ rw other (h.0, add_key-keys t key es h.1)
]

pub keys_by_name-OneEach :
    (es : List (Text × List Text)) (xs : List (Text × Text))
    → OneEach es
    → OneEach (keys_by_name es xs)
unfolding keys_by_name
keys_by_name-OneEach es [] h = h
keys_by_name-OneEach es ((t, key) ∷ xs) h = keys_by_name-OneEach (add_key t key es) xs (
  subst Unrepeated (sym (add_key-names t key es)) (with_name-Unrepeated t (names_of es) h.0),
  add_key-keys t key es h.1,
)
