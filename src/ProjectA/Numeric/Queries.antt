-- ===== src/ProjectA/Numeric/Queries.antt =====
-- expansion_before, latest_expansion_story and tracked_level of NumericMarketState.
use trading_ai_pipeline.Base.{
  ℕ, Bool, true, ◌&&◌, leb, Option, none, some, List, [], ◌∷◌, if◌then◌else◌,
}
use trading_ai_pipeline.ProjectA.Numeric.Events.{Direction, LiquidityLevel}
use trading_ai_pipeline.ProjectA.Numeric.View.{View, ExpansionEvent, get_level}
use trading_ai_pipeline.ProjectA.Numeric.Fold.{same_direction}

abbrev in_direction : Option Direction → Direction → Bool
in_direction none d = true
in_direction (some wanted) d = same_direction d wanted

unfoldable pub is_eligible : ℕ → Option Direction → ExpansionEvent → Bool
is_eligible at wanted x =
    leb x.event.source_bar_time at && in_direction wanted x.expansion.direction

unfoldable pub last_eligible : ℕ → Option Direction → List ExpansionEvent → Option ExpansionEvent
last_eligible at wanted [] = none
last_eligible at wanted (x ∷ xs) =
    if is_eligible at wanted x then some x else last_eligible at wanted xs

unfoldable pub expansion_before : ℕ → Option Direction → View → Option ExpansionEvent
expansion_before at wanted v = last_eligible at wanted v.expansions

unfoldable pub tracked_level : View → Option LiquidityLevel
tracked_level v = elim v.tracked [
  | none ↦ none
  | some t ↦ get_level t.level_id t.level_version v.levels
]
