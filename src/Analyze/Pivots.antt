-- ===== src/Analyze/Pivots.antt =====
-- analyze/swing_pivots.py: `detect_pivots`. Prices are natural numbers of a common unit.
pub mod Repaint
use trading_ai_pipeline.Base.{
  ℕ, zero, suc, ◌+◌, ◌-◌, ◌*◌, Bool, true, false, ◌&&◌, ◌||◌, Option, none, some, List, [], ◌∷◌,
  length, leb, ltb, ◌==◌, if◌then◌else◌,
}

-- [time, open, high, low, close]
pub record Bar : Type 0 where
  pub time : ℕ
  pub open_ : ℕ
  pub high : ℕ
  pub low : ℕ
  pub close : ℕ

pub record Pivot : Type 0 where
  pub idx : ℕ
  pub time : ℕ
  pub price : ℕ

pub record Pivots : Type 0 where
  pub highs : List Pivot
  pub lows : List Pivot

-- bars[i]; none is IndexError.
unfoldable pub get_elem? : List Bar → ℕ → Option Bar
get_elem? [] i = none
get_elem? (b ∷ bars) zero = some b
get_elem? (b ∷ bars) (suc i) = get_elem? bars i

-- hi > h, or hi >= h where equal prices count.
abbrev pub above : Bool → ℕ → ℕ → Bool
above strict hi h = if strict then ltb h hi else leb h hi

abbrev pub below : Bool → ℕ → ℕ → Bool
below strict lo l = if strict then ltb lo l else leb lo l

-- all(… for j in range(start, start + count))
unfoldable pub all_range : (ℕ → Bool) → ℕ → ℕ → Bool
all_range p start zero = true
all_range p start (suc count) = p start && all_range p (suc start) count

-- The test of the price of the bar i against the bar j.
abbrev pub beats : (Bar → ℕ) → (ℕ → ℕ → Bool) → List Bar → ℕ → ℕ → ℕ → Bool
beats price compare_ bars i at j =
    (j == i) || elim (get_elem? bars j) [ none ↦ false | some b ↦ compare_ at (price b) ]

-- The pivot at the index i: its price passes the comparison with every other bar of its window.
unfoldable pub pivot_at : (Bar → ℕ) → (ℕ → ℕ → Bool) → ℕ → List Bar → ℕ → Option Pivot
pivot_at price compare_ k bars i = elim (get_elem? bars i) [
  | none ↦ none
  | some b ↦
      if all_range (beats price compare_ bars i (price b)) (i - k) (2 * k + 1)
      then some (record { idx = i; time = b.time; price = price b })
      else none
]

-- The pivots among the indices start, …, start + count - 1, in order.
unfoldable pub scan : (ℕ → Option Pivot) → ℕ → ℕ → List Pivot
scan pivot start zero = []
scan pivot start (suc count) =
    let rest = scan pivot (suc start) count in
    elim (pivot start) [ none ↦ rest | some p ↦ p ∷ rest ]

unfoldable pub detect_pivots : List Bar → ℕ → Bool → Pivots
detect_pivots bars k strict =
    let n = length bars in
    if ltb n (2 * k + 1) then record { highs = []; lows = [] } else record {
      highs = scan (pivot_at Bar.high (above strict) k bars) k (n - 2 * k);
      lows = scan (pivot_at Bar.low (below strict) k bars) k (n - 2 * k);
    }
