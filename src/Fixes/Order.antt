-- ===== src/Fixes/Order.antt =====
-- The order in which `apply_fixes_to_file` writes the fixes, and which findings it writes.
use githubprojectforissueide.Prelude.{
  ℕ, ◌≤◌, ◌<◌, ◌≡◌, refl, ap, fun_ext, ◌∙◌, Bool, true, ◌&&◌, List, [], ◌∷◌, ◌++◌, some, arith,
  Bool-cases, inl, inr, count, select, All, All-map, All-of, ==_iff, ◌==◌,
}
use githubprojectforissueide.Models.{Finding}
use githubprojectforissueide.Fixes.Spans.{
  start_line, last_line, start-le-last, span_le, insert_by, sort_by,
}
use githubprojectforissueide.Fixes.{group_loop, split_groups, starts_no_earlier}
use githubprojectforissueide.Fixes.Sorting.{
  count_mono, count-select, count-sort_by, All-insert_by, All-sort_by,
}
use githubprojectforissueide.Fixes.Groups.{sweep, group_loop-sweep}
use githubprojectforissueide.Fixes.Alone.{
  overlaps, alone, alone_among, alone_among_shift, overlaps_self, kept, Behind, FromStart,
  sweep-select, select_keeps,
}

FromStart-insert_by :
    (lo : ℕ) (x : Finding) (xs : List Finding)
    → FromStart lo xs
    → lo ≤ start_line x
    → FromStart lo (insert_by span_le x xs)
unfolding insert_by
FromStart-insert_by lo x [] h l = (l, tt)
FromStart-insert_by lo x (y ∷ ys) h l = elim (Bool-cases (span_le x y)) [
  | inl before ↦ rw before (l, (ground arith, h.1))
  | inr behind ↦ rw behind (h.0, FromStart-insert_by (start_line y) x ys h.1 (ground arith))
]

FromStart-sort_by : (xs : List Finding) → FromStart 0 (sort_by span_le xs)
unfolding sort_by
FromStart-sort_by [] = tt
FromStart-sort_by (x ∷ xs) =
    FromStart-insert_by 0 x (sort_by span_le xs) (FromStart-sort_by xs) (omega arith)

alone_among-nil : (xs : List Finding) → alone_among [] xs ≡ alone xs
unfolding count
alone_among-nil xs = fun_ext λ f. ap (λ (n : ℕ). n == 1) (omega arith)

first_group :
    (x : Finding) (rest : List Finding)
    → (split_groups (group_loop [] 0 (x ∷ rest))).0 ≡ sweep (some x) (last_line x) rest
unfolding group_loop split_groups
first_group x rest = group_loop-sweep rest [] x [] (last_line x)

-- Of findings in order, the groups of one hold those that overlap no other.
groups-alone :
    (xs : List Finding)
    → FromStart 0 xs
    → (split_groups (group_loop [] 0 xs)).0 ≡ select (alone xs) xs
groups-alone [] h = unfold group_loop split_groups select in refl
groups-alone (x ∷ rest) h =
    let first : Behind (start_line x) (last_line x) (x ∷ []) = record {
      starts = (omega arith, tt);
      ends = (omega arith, tt);
      reached = unfold count in ground arith;
    } in
    first_group x rest
    ∙ (sweep-select rest (start_line x) (last_line x) (x ∷ []) (some x) first h.1
          (refl, omega arith)
        ∙ (ap (λ p. kept (some x) rest ++ select p rest) (alone_among_shift x [] rest)
            ∙ (select_keeps [] x rest (unfold count in refl)
                ∙ ap (λ p. select p (x ∷ rest)) (alone_among-nil (x ∷ rest)))))

-- Later starts first.
abbrev Descends : List Finding → Type 0
Descends [] = Unit
Descends (x ∷ xs) = All (λ y. start_line y ≤ start_line x) xs × Descends xs

Descends-insert_by :
    (x : Finding) (xs : List Finding) → Descends xs → Descends (insert_by starts_no_earlier x xs)
unfolding insert_by
Descends-insert_by x [] h = (tt, tt)
Descends-insert_by x (y ∷ ys) h = elim (Bool-cases (starts_no_earlier x y)) [
  | inl before ↦
      rw before (
        (ground arith, All-map _ _ ys (λ z (p : start_line z ≤ start_line y). ground arith) h.0),
        h,
      )
  | inr behind ↦ rw behind (
    All-insert_by (λ z. start_line z ≤ start_line y) starts_no_earlier x ys (ground arith) h.0,
    Descends-insert_by x ys h.1,
  )
]

Descends-sort_by : (xs : List Finding) → Descends (sort_by starts_no_earlier xs)
unfolding sort_by
Descends-sort_by [] = tt
Descends-sort_by (x ∷ xs) = Descends-insert_by x _ (Descends-sort_by xs)

-- Each ends above the start of all before it.
abbrev pub Separated : List Finding → Type 0
Separated [] = Unit
Separated (x ∷ xs) = All (λ y. last_line y < start_line x) xs × Separated xs

below :
    (x : Finding) (xs : List Finding)
    → All (λ y. start_line y ≤ start_line x) xs
    → count (overlaps x) xs ≡ 0
    → All (λ y. last_line y < start_line x) xs
unfolding count
below x [] d c = tt
below x (y ∷ ys) d c = (ground (arith, start-le-last x), below x ys d.1 (ground arith))

at_most_one :
    (x : Finding) (xs : List Finding)
    → All (λ f. count (overlaps f) (x ∷ xs) ≤ 1) xs
    → All (λ f. count (overlaps f) xs ≤ 1) xs
unfolding count
at_most_one x xs =
    All-map (λ f. count (overlaps f) (x ∷ xs) ≤ 1) (λ f. count (overlaps f) xs ≤ 1) xs
      (λ f p. omega arith)

Separated-of_Descends :
    (xs : List Finding) → Descends xs → All (λ f. count (overlaps f) xs ≤ 1) xs → Separated xs
Separated-of_Descends [] d c = tt
Separated-of_Descends (x ∷ xs) d c = (
  below x xs d.0 (unfold count in ground (arith, overlaps_self x)),
  Separated-of_Descends xs d.1 (at_most_one x xs c.1),
)

All-select_self {ℓ} :
    {A : Type ℓ} (p : A → Bool) (xs : List A) → All (λ x. p x ≡ true) (select p xs)
unfolding select
All-select_self p [] = tt
All-select_self p (x ∷ xs) = elim (Bool-cases (p x)) [
  | inl kept ↦ rw kept (kept, All-select_self p xs)
  | inr dropped ↦ rw dropped (All-select_self p xs)
]

-- The findings that the loop writes, in its order.
abbrev pub writes : List Finding → List Finding
writes fixable = sort_by starts_no_earlier (select (alone fixable) (sort_by span_le fixable))

alone-sort_by : (xs : List Finding) → alone (sort_by span_le xs) ≡ alone xs
alone-sort_by xs = fun_ext λ f. ap (λ (n : ℕ). n == 1) (count-sort_by (overlaps f) span_le xs)

pub groups-writes :
    (fixable : List Finding)
    → sort_by starts_no_earlier (split_groups (group_loop [] 0 (sort_by span_le fixable))).0
      ≡ writes fixable
groups-writes fixable =
    let ordered = sort_by span_le fixable in
    ap (sort_by starts_no_earlier) (
      groups-alone ordered (FromStart-sort_by fixable)
      ∙ ap (λ p. select p ordered) (alone-sort_by fixable))

&&_right : (p q : Bool) → (p && q) ≡ true → q ≡ true
&&_right p q h = ground arith

written_once :
    (fixable : List Finding) (f : Finding)
    → alone fixable f ≡ true
    → count (overlaps f) (writes fixable) ≤ 1
written_once fixable f h =
    let ordered = sort_by span_le fixable in
    omega (
      arith,
      count-sort_by (overlaps f) starts_no_earlier (select (alone fixable) ordered),
      count-select (overlaps f) (alone fixable) ordered,
      count_mono (λ g. alone fixable g && overlaps f g) (overlaps f) ordered
          (All-of _ ordered (λ g. &&_right (alone fixable g) (overlaps f g))),
      count-sort_by (overlaps f) span_le fixable,
      (==_iff (count (overlaps f) fixable) 1).0 h,
    )

pub writes-Separated : (fixable : List Finding) → Separated (writes fixable)
writes-Separated fixable =
    let single = select (alone fixable) (sort_by span_le fixable) in
    Separated-of_Descends (writes fixable) (Descends-sort_by single) (
      All-sort_by (λ f. count (overlaps f) (writes fixable) ≤ 1) starts_no_earlier single
        (All-map (λ f. alone fixable f ≡ true) _ single (written_once fixable)
          (All-select_self (alone fixable) (sort_by span_le fixable))))
