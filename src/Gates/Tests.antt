-- ===== src/Gates/Tests.antt =====
-- The gates on concrete facts.
use trading_ai_pipeline.Base.{
  ◌≡◌, ◌↔◌, Bool, true, false, Option, none, some, List, [], ◌∷◌, String, arith,
}
use trading_ai_pipeline.Base.Int.{pos, negsuc}
use trading_ai_pipeline.Gates.Macd.{
  Reading, Readings, compute_macd_gate, gate_pass_iff, ThreeOf, IsBullish, IsBearish, bull, bear,
}
use trading_ai_pipeline.Gates.Range.{RangeFacts}
use trading_ai_pipeline.Gates.DayType.{DayFacts}
use trading_ai_pipeline.Gates.SignalTier.{Signal, m1_hist_flip, near_key_snr}
use trading_ai_pipeline.Gates.TwoStrike.{Call}

abbrev rising : Option Reading
rising = some (record { hist = some (pos 2); macd = some (pos 5); signal = some (pos 3) })

abbrev readings : Readings
readings = record { m1 = rising; m5 = rising; m15 = none; m30 = rising }

gate_pass_iff_example :
    let v = compute_macd_gate readings in
    (((v.gate_pass ≡ true) × (v.direction ≡ bull))
      ↔ ThreeOf
          (IsBullish readings.m1)
          (IsBullish readings.m5)
          (IsBullish readings.m15)
          (IsBullish readings.m30))
    × (((v.gate_pass ≡ true) × (v.direction ≡ bear))
        ↔ ThreeOf
            (IsBearish readings.m1)
            (IsBearish readings.m5)
            (IsBearish readings.m15)
            (IsBearish readings.m30))
gate_pass_iff_example = gate_pass_iff readings

abbrev touched : RangeFacts
touched = record {
  boundary_touches = 3;
  fivemin_close_broke = false;
  minutes_since_break = 10;
  bounds = 4000 ∷ 4050 ∷ [];
  price = some 4020;
  touch_threshold = 3;
  time_threshold_min = 30;
}

abbrev quiet_day : DayFacts
quiet_day = record {
  fivemin_move_pts = negsuc 5;
  consecutive_hl_lh = false;
  breakout_with_followthrough = false;
  boundary_touches = 4;
  fivemin_close_broke = false;
  minutes_since_break = 12;
  trend_move_threshold = 15;
}

abbrev only_flip : Signal → Bool
only_flip m1_hist_flip = true
only_flip _ = false

abbrev flip_near_key : Signal → Bool
flip_near_key m1_hist_flip = true
flip_near_key near_key_snr = true
flip_near_key _ = false

more_signals : (s : Signal) → only_flip s ≡ true → flip_near_key s ≡ true
more_signals s h = ground arith

abbrev call : String → Bool → Call
call band invalidated = record { band = some band; direction = true; invalidated = invalidated }

abbrev calls : List Call
calls = call "4010" false ∷ call "4010" true ∷ call "4050" false ∷ call "4010" true ∷ []
