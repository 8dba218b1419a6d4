-- ===== src/Analyzers/Names.antt =====
-- Lists of names, and lists of entries with one entry for each name.
use githubprojectforissueide.Prelude.{
  Option, some, none, any, not, Bool, false, refl, ◌≡◌, ◌⊎◌, inl, inr, sym, subst, true, List, [],
  ◌∷◌, ◌++◌, arith, Bool-cases, if◌then◌else◌,
}
use githubprojectforissueide.Text.{Text, text_eq, text_eq→eq, text_eq_refl}
use githubprojectforissueide.Analyzers.Shapes.{one_of, holds}
use githubprojectforissueide.Analyzers.Paths.{In}
use githubprojectforissueide.Analyzers.Once.{by_side}

pub one_of_to : (t : Text) (ts : List Text) → one_of ts t ≡ true → In t ts
unfolding one_of
one_of_to t [] h = cc
one_of_to t (u ∷ ts) h = elim (Bool-cases (text_eq t u)) [
  | inl same ↦ inl (text_eq→eq t u same)
  | inr other ↦ inr (one_of_to t ts (rw other at h))
]

pub one_of_from : (t : Text) (ts : List Text) → In t ts → one_of ts t ≡ true
unfolding one_of
one_of_from t [] m = absurd m
one_of_from t (u ∷ ts) (inl e) =
    let same : text_eq t u ≡ true = subst (λ v. text_eq t v ≡ true) e (text_eq_refl t) in
    ground arith
one_of_from t (u ∷ ts) (inr m) = let later = one_of_from t ts m in ground arith

-- No element twice.
abbrev pub Unrepeated : {A : Type 0} → List A → Type 0
Unrepeated [] = Unit
Unrepeated (x ∷ xs) = (¬ In x xs) × Unrepeated xs

-- The names of some entries.
abbrev pub names_of : {A : Type 0} → List (Text × A) → List Text
names_of [] = []
names_of ((t, a) ∷ es) = t ∷ names_of es

-- The names after an entry for `t` is changed, or added behind the others.
unfoldable pub with_name : Text → List Text → List Text
unfolding text_eq
with_name t [] = t ∷ []
with_name t (u ∷ us) = let rest = with_name t us in if text_eq u t then u ∷ us else u ∷ rest

with_name_from : (t s : Text) (us : List Text) → In s (with_name t us) → (s ≡ t) ⊎ In s us
unfolding with_name
with_name_from t s [] m = by_side inl (λ n. absurd n) m
with_name_from t s (u ∷ us) m = elim (Bool-cases (text_eq u t)) [
  | inl same ↦ inr (rw same at m)
  | inr other ↦
      by_side (λ e. inr (inl e)) (λ n. by_side inl (λ k. inr (inr k)) (with_name_from t s us n))
        (rw other at m)
]

pub with_name-Unrepeated : (t : Text) (us : List Text) → Unrepeated us → Unrepeated (with_name t us)
unfolding with_name
with_name-Unrepeated t [] h = (λ n. n, tt)
with_name-Unrepeated t (u ∷ us) h = elim (Bool-cases (text_eq u t)) [
  | inl same ↦ rw same h
  | inr other ↦ rw other (
    λ m.
        by_side
          (λ e.
            let same : text_eq u t ≡ true = subst (λ s. text_eq u s ≡ true) e (text_eq_refl u) in
            ground arith)
          (λ n. h.0 n) (with_name_from t u us m),
    with_name-Unrepeated t us h.1,
  )
]

snoc_from : (t s : Text) (us : List Text) → In s (us ++ t ∷ []) → (s ≡ t) ⊎ In s us
snoc_from t s [] m = by_side inl (λ n. absurd n) m
snoc_from t s (u ∷ us) m =
    by_side (λ e. inr (inl e)) (λ n. by_side inl (λ k. inr (inr k)) (snoc_from t s us n)) m

pub snoc-Unrepeated :
    (t : Text) (us : List Text) → Unrepeated us → (¬ In t us) → Unrepeated (us ++ t ∷ [])
snoc-Unrepeated t [] h new = (λ n. n, tt)
snoc-Unrepeated t (u ∷ us) h new = (
  λ m. by_side (λ e. new (inl (sym e))) (λ n. h.0 n) (snoc_from t u us m),
  snoc-Unrepeated t us h.1 (λ m. new (inr m)),
)

pub some_inj : {A : Type 0} {x y : A} → some x ≡ some y → x ≡ y
some_inj h = cc

-- No element passes a test.
pub any_none :
    {A : Type 0} (p : A → Bool) (xs : List A)
    → not (any p xs) ≡ true
    → (x : A) → In x xs
    → p x ≡ false
unfolding any
any_none p [] h x m = absurd m
any_none p (y ∷ ys) h x (inl e) = subst (λ z. p z ≡ false) (sym e) (ground arith)
any_none p (y ∷ ys) h x (inr m) = any_none p ys (ground arith) x m

pub any_none_of :
    {A : Type 0} (p : A → Bool) (xs : List A)
    → ((x : A) → In x xs → p x ≡ false)
    → not (any p xs) ≡ true
unfolding any
any_none_of p [] h = refl
any_none_of p (y ∷ ys) h =
    let first = h y (inl refl) in let rest = any_none_of p ys (λ x m. h x (inr m)) in ground arith

pub holds_from :
    {A : Type 0} (p : A → Bool) (o : Option A)
    → holds p o ≡ true
    → (a : A) × (o ≡ some a) × (p a ≡ true)
holds_from p none h = cc
holds_from p (some a) h = (a, refl, h)
