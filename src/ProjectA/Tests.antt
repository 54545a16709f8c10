-- ===== src/ProjectA/Tests.antt =====
-- The compiler on a concrete story.
use trading_ai_pipeline.Base.{ℕ, ◌≡◌, refl, true, false, none, some, [], ◌∷◌, Memᴰ}
use trading_ai_pipeline.Base.Text.{codes}
use trading_ai_pipeline.Output.Stamp.{text_lt}
use trading_ai_pipeline.ProjectA.MakeSense.{
  b_building, no_story, ok, at, parse_time, event_name, Side, Direction, Lifecycle, Status,
  Expansion, Liquidity, MakeSenseInput, status_of, not_fresh_of, candidate_time, matching_expansion,
  active_liquidity, hard_freshness_failure,
}
use trading_ai_pipeline.ProjectA.MakeSense.Request.{
  MakeSenseRequest, tell, evaluate_story, story, request, compile,
}
use trading_ai_pipeline.ProjectA.MakeSense.Compile.{b_building_complete}

abbrev level : Liquidity
level = record {
  level_id = some (codes "L1");
  side = Side.ask;
  lifecycle = Lifecycle.other;
  confirmed = true;
  symbol = some (codes "XAUUSD");
  feed = none;
}

abbrev early : Expansion
early = record {
  direction = Direction.up;
  confirmed = true;
  symbol = some (codes "XAUUSD");
  feed = none;
  source_bar_time = at 100;
  event_id = some (codes "e1");
}

abbrev late : Expansion
late = record early { source_bar_time = at 200; event_id = some (codes "e2") }

abbrev source : MakeSenseInput
source = record {
  event = some (codes "LIQ_TOUCH");
  source_bar_time = at 300;
  liquidity = level;
  expansion_history = late ∷ early ∷ [];
  freshness = ("xau", Status.fresh) ∷ ("atr_5m", Status.fresh) ∷ ("liquidity", Status.fresh) ∷ [];
  evidence_references = [];
  prior_state = some no_story;
  final_review = record { approved = false; grade_a = false };
}

abbrev built : MakeSenseRequest
built = request (codes "LIQ_TOUCH") source (story (codes "LIQ_TOUCH") source 300)

built_ok : compile source ≡ ok built
unfolding compile event_name parse_time
built_ok = refl

is_building : built.state ≡ b_building
unfolding story hard_freshness_failure evaluate_story tell active_liquidity matching_expansion
    candidate_time parse_time not_fresh_of status_of text_lt
is_building = refl

chosen_late : matching_expansion level 300 (late ∷ early ∷ []) ≡ some (200, late)
unfolding matching_expansion candidate_time parse_time text_lt
chosen_late = refl

early_fits : candidate_time level 300 early ≡ some 100
unfolding candidate_time parse_time
early_fits = refl

b_building_complete_example :
    (built.missing_evidence ≡ [])
    × (active_liquidity level ≡ true)
    × (status_of source.freshness "xau" ≡ some Status.fresh)
    × (status_of source.freshness "atr_5m" ≡ some Status.fresh)
    × (status_of source.freshness "liquidity" ≡ some Status.fresh)
    × ((trigger : ℕ) × (best : ℕ × Expansion) × (at 300 ≡ at trigger)
        × Memᴰ best.1 (late ∷ early ∷ [])
        × (candidate_time level trigger best.1 ≡ some best.0)
        × (built.selected_expansion_event_id ≡ best.1.event_id))
b_building_complete_example = b_building_complete source built built_ok is_building
