-- ===== src/Analyze/Tests.antt =====
-- Pivots and swings of a few bars.
use trading_ai_pipeline.Base.{ℕ, ◌≡◌, refl, true, List, [], ◌∷◌, ◌++◌}
use trading_ai_pipeline.Analyze.Pivots.{
  Bar, Pivot, detect_pivots, get_elem?, all_range, pivot_at, scan,
}
use trading_ai_pipeline.Analyze.Pivots.Repaint.{no_repaint}
use trading_ai_pipeline.Analyze.Structure.{Swing, zigzag, high, low}
use trading_ai_pipeline.Analyze.Structure.Zigzag.{IsAlternating, zigzag-IsAlternating}

abbrev bar : ℕ → ℕ → ℕ → Bar
bar time top bottom = record { time = time; open_ = bottom; high = top; low = bottom; close = top }

abbrev bars : List Bar
bars = bar 1 10 5 ∷ bar 2 14 8 ∷ bar 3 11 4 ∷ []

high_found : (detect_pivots bars 1 true).highs ≡ record { idx = 1; time = 2; price = 14 } ∷ []
unfolding detect_pivots scan pivot_at all_range get_elem?
high_found = refl

no_repaint_example :
    (later_highs later_lows : List Pivot) × ((detect_pivots
        (bars ++ (bar 4 16 9 ∷ []))
        1
        true).highs
      ≡ (detect_pivots bars 1 true).highs ++ later_highs)
    × ((detect_pivots (bars ++ (bar 4 16 9 ∷ [])) 1 true).lows
        ≡ (detect_pivots bars 1 true).lows ++ later_lows)
no_repaint_example = no_repaint bars (bar 4 16 9 ∷ []) 1 true

abbrev pivots : List Swing
pivots =
    record { idx = 1; kind = high; price = 14; time = 2 }
    ∷ record { idx = 2; kind = high; price = 15; time = 3 }
    ∷ record { idx = 4; kind = low; price = 6; time = 5 }
    ∷ []

zigzag-IsAlternating_example : IsAlternating (zigzag 3 pivots)
zigzag-IsAlternating_example = zigzag-IsAlternating 3 pivots
