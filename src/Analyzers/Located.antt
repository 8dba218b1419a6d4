-- ===== src/Analyzers/Located.antt =====
-- Findings that claim the line of the file that they are at.
use githubprojectforissueide.Prelude.{
  ℕ, ◌≡◌, refl, Bool, true, false, List, [], ◌∷◌, ◌++◌, Option, none, some, All, guard, ◌>>=◌, ◌>>◌,
  any, if◌then◌else◌, ◌==◌, Bool-cases, inl, inr,
}
use githubprojectforissueide.Text.{Text, strip}
use githubprojectforissueide.Models.{Finding, Severity}
use githubprojectforissueide.Syntax.{line_at}
use githubprojectforissueide.Analyzers.Tree.{Node}
use githubprojectforissueide.Analyzers.Shapes.{filter_map}
use githubprojectforissueide.Analyzers.Reports.{report, once, concat_map, checked}

-- A finding at a line of the file, which it claims, without the white space around it.
pub record IsLocated (lines : List Text) (f : Finding) : Type 0 where
  pub claimed : Text
  pub there : line_at lines f.line ≡ some claimed
  pub claims : f.bad_code ≡ strip claimed

-- What may be missing, or has a property.
pub data Yields {ℓ} {A : Type ℓ} (P : A → Type 0) : Option A → Type ℓ where
  missing : Yields P none
  found : {a : A} → P a → Yields P (some a)

module _ {ℓ} {A : Type ℓ} {P : A → Type 0} where
  pub Yields-guard : (b : Bool) (k : Option A) → Yields P k → Yields P (guard b >> k)
  Yields-guard true k h = h
  Yields-guard false k h = missing

  pub Yields-bind {κ} :
      {B : Type κ} (m : Option B) (f : B → Option A)
      → ((b : B) → Yields P (f b))
      → Yields P (m >>= f)
  Yields-bind none f h = missing
  Yields-bind (some b) f h = h b

  -- The same, with what the value comes from.
  pub Yields-known {κ} :
      {B : Type κ} (m : Option B) (f : B → Option A)
      → ((b : B) → m ≡ some b → Yields P (f b))
      → Yields P (m >>= f)
  Yields-known none f h = missing
  Yields-known (some b) f h = h b refl

-- A report at a line that was looked up.
pub report-IsLocated :
    (source filename category message fix : Text) (severity : Severity) (end_line : ℕ)
    (lines : List Text) (n : ℕ) (line : Text)
    → line_at lines n ≡ some line
    → Yields
        (IsLocated lines)
        (some (report source filename n end_line category severity message line fix))
unfolding report
report-IsLocated source filename category message fix severity end_line lines n line e =
    found (record { claimed = line; there = e; claims = refl })

pub filter_map-All {ℓ} :
    {A : Type ℓ} (P : Finding → Type 0) (f : A → Option Finding) (xs : List A)
    → ((a : A) → Yields P (f a))
    → All P (filter_map f xs)
unfolding filter_map
filter_map-All P f [] h = tt
filter_map-All P f (a ∷ more) h = go (f a) (h a) (filter_map-All P f more h)
  where
    go :
        (o : Option Finding)
        → Yields P o
        → All P (filter_map f more)
        → All P (elim o [ none ↦ filter_map f more | some b ↦ b ∷ filter_map f more ])
    go none y rest = rest
    go (some b) (found p) rest = (p, rest)

pub All-append {ℓ} :
    {A : Type ℓ} (P : A → Type 0) (xs ys : List A) → All P xs → All P ys → All P (xs ++ ys)
All-append P [] ys p q = q
All-append P (x ∷ xs) ys p q = (p.0, All-append P xs ys p.1 q)

pub concat_map-All {ℓ} :
    {A : Type ℓ} (P : Finding → Type 0) (f : A → List Finding) (xs : List A)
    → ((a : A) → All P (f a))
    → All P (concat_map f xs)
unfolding concat_map
concat_map-All P f [] h = tt
concat_map-All P f (a ∷ more) h =
    All-append P (f a) (concat_map f more) (h a) (concat_map-All P f more h)

pub once-All :
    (P : Finding → Type 0) (seen : List ℕ) (fs : List Finding) → All P fs → All P (once seen fs)
unfolding once
once-All P seen [] h = tt
once-All P seen (f ∷ fs) h = elim (Bool-cases (any (◌==◌ f.line) seen)) [
  | inl old ↦ rw old (once-All P seen fs h.1)
  | inr new ↦ rw new (h.0, once-All P (f.line ∷ seen) fs h.1)
]

pub checked-All :
    (P : Finding → Type 0) (parse : Text → Option Node) (code : Text) (f : Node → List Finding)
    → ((tree : Node) → All P (f tree))
    → All P (checked parse code f)
unfolding checked
checked-All P parse code f h = go (parse code)
  where
    go : (o : Option Node) → All P (elim o [ none ↦ [] | some tree ↦ f tree ])
    go none = tt
    go (some tree) = h tree

pub if-All :
    (P : Finding → Type 0) (b : Bool) (fs : List Finding) → All P fs → All P (if b then fs else [])
if-All P true fs h = h
if-All P false fs h = tt

pub ruleset located = (Yields-guard, Yields-known, report-IsLocated)
