-- ===== src/Gates/DayType.antt =====
-- gates/day_type.py. The points of the 5m move are a signed number, as in the source; the reasons
-- are left out.
use trading_ai_pipeline.Base.{
  ℕ, ◌≤◌, ◌≡◌, ◌↔◌, ◌⊎◌, Bool, true, false, ◌&&◌, none, [], leb, arith, if◌then◌else◌,
}
use trading_ai_pipeline.Base.Int.{ℤ, abs}
use trading_ai_pipeline.Gates.Range.{
  RangeFacts, compute_range_gate, default_touch_threshold, default_time_threshold_min,
}

pub data DayType : Type 0 where
  trend range neither : DayType

pub record DayFacts : Type 0 where
  pub fivemin_move_pts : ℤ
  pub consecutive_hl_lh : Bool
  pub breakout_with_followthrough : Bool
  pub boundary_touches : ℕ
  pub fivemin_close_broke : Bool
  pub minutes_since_break : ℕ
  pub trend_move_threshold : ℕ

pub record DayVerdict : Type 0 where
  pub day_type : DayType
  pub trend_confirmed : Bool
  pub range_confirmed : Bool

abbrev pub range_facts : DayFacts → RangeFacts
range_facts f = record {
  boundary_touches = f.boundary_touches;
  fivemin_close_broke = f.fivemin_close_broke;
  minutes_since_break = f.minutes_since_break;
  bounds = [];
  price = none;
  touch_threshold = default_touch_threshold;
  time_threshold_min = default_time_threshold_min;
}

unfoldable pub compute_day_type : DayFacts → DayVerdict
compute_day_type f =
    let trend_confirmed =
      leb f.trend_move_threshold (abs f.fivemin_move_pts)
      && (f.consecutive_hl_lh && f.breakout_with_followthrough) in
    let range_confirmed = (compute_range_gate (range_facts f)).range_confirmed in
    record {
      day_type = if trend_confirmed then trend else if range_confirmed then range else neither;
      trend_confirmed = trend_confirmed;
      range_confirmed = range_confirmed;
    }

-- The day is a TREND exactly when the move is large enough, with successive highs and lows and a
-- break that followed through, whatever the range gate says; it is a RANGE exactly when it is no
-- TREND, no 5m close has broken the boundary, and this has three touches or has held 30 minutes.
pub day_type_iff :
    (f : DayFacts)
    → let v = compute_day_type f in
      ((v.day_type ≡ trend) ↔ (
        (f.trend_move_threshold ≤ abs f.fivemin_move_pts)
        × (f.consecutive_hl_lh ≡ true)
        × (f.breakout_with_followthrough ≡ true)))
      × ((v.day_type ≡ range) ↔ (
          (v.trend_confirmed ≡ false)
          × (f.fivemin_close_broke ≡ false)
          × ((3 ≤ f.boundary_touches) ⊎ (30 ≤ f.minutes_since_break))))
unfolding compute_day_type compute_range_gate
day_type_iff f = ((ground arith, ground arith), (ground arith, ground arith))
