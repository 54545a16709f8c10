-- ===== src/Analyze/Structure/Zigzag.antt =====
-- What the zigzag and the classification guarantee.
use trading_ai_pipeline.Base.{ℕ, ◌≡◌, false, List, [], ◌∷◌, arith}
use trading_ai_pipeline.Analyze.Structure.{Swing, same_kind, zigzag_step, zigzag_from, zigzag}

-- Successive swings are of different kinds.
abbrev pub IsAlternating : List Swing → Type 0
IsAlternating [] = Unit
IsAlternating (s ∷ []) = Unit
IsAlternating (s ∷ t ∷ swings) = (same_kind s.kind t.kind ≡ false) × IsAlternating (t ∷ swings)

zigzag_step-IsAlternating :
    (m : ℕ) (swings : List Swing) (p : Swing)
    → IsAlternating swings
    → IsAlternating (zigzag_step m swings p)
unfolding zigzag_step
zigzag_step-IsAlternating m [] p h = tt
zigzag_step-IsAlternating m (last ∷ []) p h = ground arith
zigzag_step-IsAlternating m (last ∷ t ∷ swings) p h = ground (arith, h.0, h.1)

zigzag_from-IsAlternating :
    (m : ℕ) (swings pivots : List Swing)
    → IsAlternating swings
    → IsAlternating (zigzag_from m swings pivots)
unfolding zigzag_from
zigzag_from-IsAlternating m swings [] h = h
zigzag_from-IsAlternating m swings (p ∷ pivots) h =
    zigzag_from-IsAlternating m (zigzag_step m swings p) pivots
      (zigzag_step-IsAlternating m swings p h)

-- The significant swings alternate between highs and lows, whatever the pivots are.
pub zigzag-IsAlternating : (m : ℕ) (pivots : List Swing) → IsAlternating (zigzag m pivots)
unfolding zigzag
zigzag-IsAlternating m pivots = zigzag_from-IsAlternating m [] pivots tt
