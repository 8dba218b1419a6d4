-- ===== src/Fixes/Alone.antt =====
-- The findings that are alone in their group, and the ranges of the others.
use githubprojectforissueide.Prelude.{
  ℕ, ◌+◌, ◌≤◌, ◌<◌, ◌≡◌, refl, ap, fun_ext, ◌∙◌, Bool, true, ◌&&◌, List, [], ◌∷◌, ◌++◌, Option,
  none, some, arith, leb, max, Bool-cases, inl, inr, if◌then◌else◌, count, select, All, All-map,
  ◌==◌, leb→le, count,
}
use githubprojectforissueide.Models.{Finding}
use githubprojectforissueide.Fixes.Spans.{start_line, last_line, start-le-last}
use githubprojectforissueide.Fixes.Sorting.{count_mono, count-zero}
use githubprojectforissueide.Fixes.Groups.{emit, sweep, sweep_joins, sweep_opens}

-- The line ranges of two findings have a line in common.
abbrev pub overlaps : Finding → Finding → Bool
overlaps f g = leb (start_line f) (last_line g) && leb (start_line g) (last_line f)

-- Of the findings, itself included, exactly one overlaps `f`.
abbrev pub alone : List Finding → Finding → Bool
alone fs f = count (overlaps f) fs == 1

-- In order of their starts, from `lo` on.
abbrev pub FromStart : ℕ → List Finding → Type 0
FromStart lo [] = Unit
FromStart lo (f ∷ fs) = (lo ≤ start_line f) × FromStart (start_line f) fs

-- What the sweep knows of the findings behind it: they start by `lo`, end by `m`, and one ends there.
pub record Behind (lo m : ℕ) (b : List Finding) : Type 0 where
  pub starts : All (λ f. start_line f ≤ lo) b
  pub ends : All (λ f. last_line f ≤ m) b
  pub reached : 0 < count (λ f. leb m (last_line f)) b

FromStart-All : (lo : ℕ) (xs : List Finding) → FromStart lo xs → All (λ f. lo ≤ start_line f) xs
FromStart-All lo [] h = tt
FromStart-All lo (x ∷ xs) h = (
  h.0,
  All-map _ _ xs (λ f (p : start_line x ≤ start_line f). omega arith)
      (FromStart-All (start_line x) xs h.1),
)

pub overlaps_self : (f : Finding) → overlaps f f ≡ true
overlaps_self f = ground (arith, start-le-last f)

-- A finding that starts by the end of what is behind overlaps something there.
meets-Behind :
    (lo m : ℕ) (b : List Finding) (x : Finding)
    → Behind lo m b
    → lo ≤ start_line x
    → start_line x ≤ m
    → 0 < count (overlaps x) b
meets-Behind lo m b x h l s =
    let e =
      count_mono (λ f. leb m (last_line f)) (overlaps x) b
        (All-map _ _ b (λ f (p : start_line f ≤ lo). λ q. ground (arith, start-le-last x))
          h.starts) in
    omega (arith, h.reached)

-- One that starts behind that end overlaps nothing there.
misses-Behind :
    (lo m : ℕ) (b : List Finding) (x : Finding)
    → Behind lo m b
    → m < start_line x
    → count (overlaps x) b ≡ 0
misses-Behind lo m b x h s =
    count-zero (overlaps x) b (All-map _ _ b (λ f (p : last_line f ≤ m). ground arith) h.ends)

-- Nothing that starts behind the end of `f` overlaps it.
misses_ahead :
    (f x : Finding) (rest : List Finding)
    → last_line f < start_line x
    → FromStart (start_line x) rest
    → count (overlaps f) (x ∷ rest) ≡ 0
misses_ahead f x rest s h = count-zero (overlaps f) (x ∷ rest) (
  ground arith,
  All-map _ _ rest (λ g (p : start_line x ≤ start_line g). ground arith)
      (FromStart-All (start_line x) rest h),
)

-- The open group of one stays alone if nothing ahead overlaps its member.
abbrev pub kept : Option Finding → List Finding → List Finding
kept none xs = []
kept (some f) xs = if count (overlaps f) xs == 0 then f ∷ [] else []

abbrev pub EndsAt : ℕ → ℕ → Option Finding → Type 0
EndsAt lo m none = Unit
EndsAt lo m (some f) = (last_line f ≡ m) × (start_line f ≤ lo)

-- Of the findings behind and ahead exactly one overlaps `f`.
abbrev pub alone_among : List Finding → List Finding → Finding → Bool
alone_among b xs f = (count (overlaps f) b + count (overlaps f) xs) == 1

pub alone_among_shift :
    (x : Finding) (b rest : List Finding) → alone_among (x ∷ b) rest ≡ alone_among b (x ∷ rest)
unfolding count
alone_among_shift x b rest = fun_ext λ f. ap (λ (n : ℕ). n == 1) (omega arith)

Behind-joins :
    (lo m : ℕ) (b : List Finding) (x : Finding)
    → Behind lo m b
    → lo ≤ start_line x
    → Behind (start_line x) (max m (last_line x)) (x ∷ b)
Behind-joins lo m b x h l = record {
  starts = (omega arith, All-map _ _ b (λ f (p : start_line f ≤ lo). omega arith) h.starts);
  ends = (omega arith, All-map _ _ b (λ f (p : last_line f ≤ m). omega arith) h.ends);
  reached = elim (Bool-cases (leb (last_line x) m)) [
    | inl within ↦
        let e : max m (last_line x) ≡ m = ground arith in
        rw e (unfold count in omega (arith, h.reached))
    | inr past ↦
        let e : max m (last_line x) ≡ last_line x = ground arith in
        rw e (unfold count in ground arith)
  ];
}

Behind-opens :
    (lo m : ℕ) (b : List Finding) (x : Finding)
    → Behind lo m b
    → lo ≤ start_line x
    → m < start_line x
    → Behind (start_line x) (last_line x) (x ∷ b)
unfolding count
Behind-opens lo m b x h l s = record {
  starts = (omega arith, All-map _ _ b (λ f (p : start_line f ≤ lo). omega arith) h.starts);
  ends = (
    omega arith,
    All-map _ _ b (λ f (p : last_line f ≤ m). omega (arith, start-le-last x)) h.ends,
  );
  reached = ground arith;
}

kept_joins :
    (lo m : ℕ) (p : Option Finding) (x : Finding) (rest : List Finding)
    → EndsAt lo m p
    → lo ≤ start_line x
    → start_line x ≤ m
    → kept p (x ∷ rest) ≡ []
unfolding count
kept_joins lo m none x rest e l s = refl
kept_joins lo m (some f) x rest e l s = ground (arith, start-le-last x)

kept_opens :
    (lo m : ℕ) (p : Option Finding) (x : Finding) (rest : List Finding)
    → EndsAt lo m p
    → m < start_line x
    → FromStart (start_line x) rest
    → kept p (x ∷ rest) ≡ emit p
kept_opens lo m none x rest e s h = refl
kept_opens lo m (some f) x rest e s h = ground (arith, misses_ahead f x rest (omega arith) h)

select_drops :
    (b : List Finding) (x : Finding) (rest : List Finding)
    → 0 < count (overlaps x) b
    → select (alone_among b (x ∷ rest)) rest ≡ select (alone_among b (x ∷ rest)) (x ∷ rest)
unfolding select count
select_drops b x rest h = ground (arith, overlaps_self x)

pub select_keeps :
    (b : List Finding) (x : Finding) (rest : List Finding)
    → count (overlaps x) b ≡ 0
    → kept (some x) rest ++ select (alone_among b (x ∷ rest)) rest
      ≡ select (alone_among b (x ∷ rest)) (x ∷ rest)
unfolding select count
select_keeps b x rest h = ground (arith, overlaps_self x)

-- The sweep leaves exactly the findings alone that overlap no other, behind or ahead.
pub sweep-select :
    (xs : List Finding) (lo m : ℕ) (b : List Finding) (p : Option Finding)
    → Behind lo m b
    → FromStart lo xs
    → EndsAt lo m p
    → sweep p m xs ≡ kept p xs ++ select (alone_among b xs) xs
sweep-select [] lo m b none h s e = unfold sweep select in refl
sweep-select [] lo m b (some f) h s e = unfold sweep select count in refl
sweep-select (x ∷ rest) lo m b p h s e = elim (Bool-cases (leb (start_line x) m)) [
  | inl joins ↦
      rw (sweep_joins p m x rest joins, kept_joins lo m p x rest e s.0 (leb→le _ _ joins))
        (sweep-select rest (start_line x) (max m (last_line x)) (x ∷ b) none
            (Behind-joins lo m b x h s.0) s.1 tt
          ∙ rw (alone_among_shift x b rest)
              (select_drops b x rest (meets-Behind lo m b x h s.0 (leb→le _ _ joins))))
  | inr opens ↦
      rw (sweep_opens p m x rest opens, kept_opens lo m p x rest e (ground arith) s.1)
        (ap (◌++◌ (emit p)) (
          sweep-select rest (start_line x) (last_line x) (x ∷ b) (some x)
            (Behind-opens lo m b x h s.0 (ground arith)) s.1 (refl, omega arith)
          ∙ rw (alone_among_shift x b rest)
              (select_keeps b x rest (misses-Behind lo m b x h (ground arith)))))
]
