-- ===== src/Chunker/Ranges.antt =====
-- The uncovered ranges of src/ingestion/chunker.py, line by line.
use githubprojectforissueide.Prelude.{
  ℕ, zero, suc, ◌+◌, ◌-◌, ◌≡◌, ◌≤◌, ◌<◌, ap, ◌∙◌, Bool, true, false, not, ◌&&◌, List, Option, none,
  some, count, leb, ltb, arith, Bool-cases, ◌==◌, inl, inr, if◌then◌else◌,
}
use githubprojectforissueide.Chunker.{uncovered_loop, uncovered_ranges}

abbrev pub bit : Bool → ℕ
bit b = if b then 1 else 0

-- How many of some ranges hold a line.
unfoldable pub holding : ℕ → List (ℕ × ℕ) → ℕ
holding n ranges = count (λ r. leb r.0 n && leb n r.1) ranges

-- What the range that is open at a line takes of the lines before.
taken : Option ℕ → ℕ → ℕ
taken none n = 0
taken (some start) n = bit (leb start n)

-- The open range starts before the line.
Before : Option ℕ → ℕ → Type 0
Before none line = Unit
Before (some start) line = start < line

-- The steps of the loop, for a line that is covered and one that is not.
passed_none :
    (covered : ℕ → Bool) (n line : ℕ)
    → 0 < line
    → (n ≡ line → covered n ≡ true)
    → (if ltb n (suc line) then bit false else bit (not (covered n)))
      ≡ (if ltb n line then bit false else bit (not (covered n)))
passed_none covered n line pos at = elim (Bool-cases (n == line)) [
  | inl e ↦ let c : covered n ≡ true = at (ground arith) in ground arith
  | inr e ↦ ground arith
]

opened_here :
    (covered : ℕ → Bool) (n line : ℕ)
    → (n ≡ line → covered n ≡ false)
    → (if ltb n (suc line) then bit (leb line n) else bit (not (covered n)))
      ≡ (if ltb n line then bit false else bit (not (covered n)))
opened_here covered n line at = elim (Bool-cases (n == line)) [
  | inl e ↦ let c : covered n ≡ false = at (ground arith) in ground arith
  | inr e ↦ ground arith
]

still_open :
    (covered : ℕ → Bool) (n line start : ℕ)
    → start < line
    → (n ≡ line → covered n ≡ false)
    → (if ltb n (suc line) then bit (leb start n) else bit (not (covered n)))
      ≡ (if ltb n line then bit (leb start n) else bit (not (covered n)))
still_open covered n line start before at = elim (Bool-cases (n == line)) [
  | inl e ↦ let c : covered n ≡ false = at (ground arith) in ground arith
  | inr e ↦ ground arith
]

closes :
    (covered : ℕ → Bool) (n line start : ℕ)
    → start < line
    → (n ≡ line → covered n ≡ true)
    → bit (leb start n && leb n (line - 1))
        + (if ltb n (suc line) then bit false else bit (not (covered n)))
      ≡ (if ltb n line then bit (leb start n) else bit (not (covered n)))
closes covered n line start before at = elim (Bool-cases (n == line)) [
  | inl e ↦ let c : covered n ≡ true = at (ground arith) in ground arith
  | inr e ↦ ground arith
]

loop-holding :
    (covered : ℕ → Bool) (total line left : ℕ) (start : Option ℕ) (n : ℕ)
    → line + left ≡ total + 1
    → n ≤ total
    → 0 < line
    → Before start line
    → holding n (uncovered_loop covered total line left start)
      ≡ (if ltb n line then taken start n else bit (not (covered n)))
unfolding uncovered_loop holding taken count Before
loop-holding covered total line zero none n whole inside pos before = ground arith
loop-holding covered total line zero (some start) n whole inside pos before = ground arith
loop-holding covered total line (suc left) none n whole inside pos before =
    elim (Bool-cases (covered line)) [
      | inl inner ↦
          let ih =
            loop-holding covered total (suc line) left none n (omega arith) inside (omega arith)
              tt in
          let at : n ≡ line → covered n ≡ true = λ e. ap covered e ∙ inner in
          rw inner (ih ∙ passed_none covered n line (omega arith) at)
      | inr outer ↦
          let ih =
            loop-holding covered total (suc line) left (some line) n (omega arith) inside
              (omega arith) (omega arith) in
          let at : n ≡ line → covered n ≡ false = λ e. ap covered e ∙ outer in
          rw outer (ih ∙ opened_here covered n line at)
    ]
loop-holding covered total line (suc left) (some start) n whole inside pos before =
    elim (Bool-cases (covered line)) [
      | inl inner ↦
          let ih =
            loop-holding covered total (suc line) left none n (omega arith) inside (omega arith)
              tt in
          let at : n ≡ line → covered n ≡ true = λ e. ap covered e ∙ inner in
          rw inner (
            ap (λ m. bit (leb start n && leb n (line - 1)) + m) ih
            ∙ closes covered n line start before at)
      | inr outer ↦
          let ih =
            loop-holding covered total (suc line) left (some start) n (omega arith) inside
              (omega arith) (omega arith) in
          let at : n ≡ line → covered n ≡ false = λ e. ap covered e ∙ outer in
          rw outer (ih ∙ still_open covered n line start before at)
    ]

-- Every line of the file that no chunk covers is in exactly one of the ranges, and a line that one
-- covers is in none.
pub uncovered_ranges-holding :
    (total_lines n : ℕ) (covered : ℕ → Bool)
    → 0 < n
    → n ≤ total_lines
    → holding n (uncovered_ranges total_lines covered) ≡ bit (not (covered n))
unfolding uncovered_ranges Before
uncovered_ranges-holding total_lines n covered pos inside =
    let first : ltb n 1 ≡ false = ground arith in
    let past_first : (if ltb n 1 then taken none n else bit (not (covered n)))
        ≡ bit (not (covered n)) =
      ap (λ b. if b then taken none n else bit (not (covered n))) first in
    loop-holding covered total_lines 1 total_lines none n (omega arith) inside (omega arith) tt
    ∙ past_first
