-- ===== src/Analyze/Pivots/Repaint.antt =====
-- Pivots are not repainted.
use trading_ai_pipeline.Base.{
  ℕ, zero, suc, ◌+◌, ◌-◌, ◌*◌, ◌≤◌, ◌<◌, ◌≡◌, refl, ap, Bool, false, Option, none, some, List, [],
  ◌∷◌, ◌++◌, length, length-append, ltb, arith, Bool-cases, Option-cases, inl, inr,
}
use trading_ai_pipeline.Analyze.Pivots.{
  Bar, Pivot, get_elem?, above, below, beats, all_range, pivot_at, scan, detect_pivots,
}

get_elem?-append :
    (bars more : List Bar) (i : ℕ) → i < length bars → get_elem? (bars ++ more) i ≡ get_elem? bars i
unfolding get_elem?
get_elem?-append [] more i h = absurd (omega arith)
get_elem?-append (b ∷ bars) more zero h = refl
get_elem?-append (b ∷ bars) more (suc i) h = get_elem?-append bars more i (omega arith)

module _ (price : Bar → ℕ) (compare_ : ℕ → ℕ → Bool) (bars more : List Bar) where
  beats-append :
      (i at j : ℕ)
      → j < length bars
      → beats price compare_ (bars ++ more) i at j ≡ beats price compare_ bars i at j
  beats-append i at j h = rw (get_elem?-append bars more j h) refl

  all_range-append :
      (i at start count : ℕ)
      → start + count ≤ length bars
      → all_range (beats price compare_ (bars ++ more) i at) start count
        ≡ all_range (beats price compare_ bars i at) start count
  unfolding all_range
  all_range-append i at start zero h = refl
  all_range-append i at start (suc count) h =
      let first : beats price compare_ (bars ++ more) i at start
          ≡ beats price compare_ bars i at start =
        beats-append i at start (omega arith) in
      let rest = all_range-append i at (suc start) count (omega arith) in rw (first, rest) refl

  pivot_at-append :
      (k i : ℕ)
      → k ≤ i
      → i + k < length bars
      → pivot_at price compare_ k (bars ++ more) i ≡ pivot_at price compare_ k bars i
  unfolding pivot_at
  pivot_at-append k i low high =
      let there : get_elem? (bars ++ more) i ≡ get_elem? bars i =
        get_elem?-append bars more i (omega arith) in
      elim (Option-cases (get_elem? bars i)) [
        | inl missing ↦ ground arith
        | inr (b, e) ↦
            let window = all_range-append i (price b) (i - k) (2 * k + 1) (omega arith) in
            ground arith
      ]

scan-cong :
    (f g : ℕ → Option Pivot) (start count : ℕ)
    → ((i : ℕ) → start ≤ i → i < start + count → f i ≡ g i)
    → scan f start count ≡ scan g start count
unfolding scan
scan-cong f g start zero h = refl
scan-cong f g start (suc count) h = ground (
  arith,
  h start (omega arith) (omega arith),
  scan-cong f g (suc start) count (λ i a b. h i (omega arith) (omega arith)),
)

scan-none :
    (f : ℕ → Option Pivot) (start count : ℕ)
    → f start ≡ none
    → scan f start (suc count) ≡ scan f (suc start) count
unfolding scan
scan-none f start count e = ground (arith, e)

scan-some :
    (f : ℕ → Option Pivot) (start count : ℕ) (p : Pivot)
    → f start ≡ some p
    → scan f start (suc count) ≡ p ∷ scan f (suc start) count
unfolding scan
scan-some f start count p e = ground (arith, e)

scan-append :
    (f : ℕ → Option Pivot) (start m n : ℕ)
    → scan f start (m + n) ≡ scan f start m ++ scan f (start + m) n
scan-append f start zero n =
    let same : start + 0 ≡ start = omega arith in
    let all_ : 0 + n ≡ n = omega arith in rw (same, all_) (unfold scan in refl)
scan-append f start (suc m) n =
    let shift : suc start + m ≡ start + suc m = omega arith in
    let count : suc m + n ≡ suc (m + n) = omega arith in
    let rest : scan f (suc start) (m + n) ≡ scan f (suc start) m ++ scan f (start + suc m) n =
      rw (← shift) (scan-append f (suc start) m n) in
    elim (Option-cases (f start)) [
      | inl nothing ↦
          rw (count, scan-none f start (m + n) nothing, scan-none f start m nothing) rest
      | inr (p, e) ↦
          rw (count, scan-some f start (m + n) p e, scan-some f start m p e)
            (ap (λ (t : List Pivot). p ∷ t) rest)
    ]

-- The pivots of one side among all bars are those among the first bars, and further ones.
scan_more :
    (price : Bar → ℕ) (compare_ : ℕ → ℕ → Bool) (k : ℕ) (bars more : List Bar)
    → 2 * k < length bars
    → (later : List Pivot) × (scan
          (pivot_at price compare_ k (bars ++ more))
          k
          (length (bars ++ more) - 2 * k)
        ≡ scan (pivot_at price compare_ k bars) k (length bars - 2 * k) ++ later)
scan_more price compare_ k bars more h =
    let f = pivot_at price compare_ k (bars ++ more) in
    let m = length bars - 2 * k in
    let split : length (bars ++ more) - 2 * k ≡ m + length more =
      omega (arith, length-append bars more) in
    let same =
      scan-cong f (pivot_at price compare_ k bars) k m
        (λ i a b. pivot_at-append price compare_ bars more k i a (omega arith)) in
    (scan f (k + m) (length more), rw (split, scan-append, same) refl)

-- Pivots are not repainted: when bars are appended, the pivots that were found stay, in the same
-- places of the lists, and new ones only come after them.
pub no_repaint :
    (bars more : List Bar) (k : ℕ) (strict : Bool)
    → (later_highs later_lows : List Pivot) × ((detect_pivots (bars ++ more) k strict).highs
        ≡ (detect_pivots bars k strict).highs ++ later_highs)
      × ((detect_pivots (bars ++ more) k strict).lows
          ≡ (detect_pivots bars k strict).lows ++ later_lows)
unfolding detect_pivots
no_repaint bars more k strict = elim (Bool-cases (ltb (length bars) (2 * k + 1))) [
  | inl few ↦ rw few (_, _, refl, refl)
  | inr enough ↦
      let (highs, h) = scan_more Bar.high (above strict) k bars more (ground arith) in
      let (lows, l) = scan_more Bar.low (below strict) k bars more (ground arith) in
      let still : ltb (length (bars ++ more)) (2 * k + 1) ≡ false =
        ground (arith, length-append bars more) in
      rw (enough, still) (highs, lows, h, l)
]
