-- ===== src/Gates/Range.antt =====
-- gates/range_gate.py. Prices, touches and minutes are natural numbers of a common unit; the band
-- edges of the float arithmetic are exact here, with the factor 0.20 multiplied out.
use trading_ai_pipeline.Base.{
  ℕ, ◌+◌, ◌-◌, ◌*◌, ◌≤◌, ◌<◌, ◌≡◌, ◌↔◌, ◌⊎◌, Bool, true, false, ◌&&◌, ◌||◌, Option, none, some,
  List, [], ◌∷◌, leb, max, min, arith, if◌then◌else◌,
}

pub data Reason : Type 0 where
  close_break touch time touch_and_time undecided : Reason

-- lo + 0.20 * span <= price <= hi - 0.20 * span, for lo < hi.
abbrev pub in_band : ℕ → ℕ → ℕ → Bool
in_band lo hi price = leb (5 * lo + (hi - lo)) (5 * price) && leb (5 * price + (hi - lo)) (5 * hi)

abbrev pub midband_of : ℕ → ℕ → ℕ → Option Bool
midband_of lo hi price = if leb hi lo then none else some (in_band lo hi price)

-- `sorted(bounds)` of a list of two; any other list gives None.
unfoldable pub midband : List ℕ → Option ℕ → Option Bool
midband (a ∷ b ∷ []) (some price) = midband_of (min a b) (max a b) price
midband _ _ = none

pub record RangeVerdict : Type 0 where
  pub range_confirmed : Bool
  pub allow_direction : Bool
  pub price_in_midband : Option Bool
  pub reason : Reason

pub record RangeFacts : Type 0 where
  pub boundary_touches : ℕ
  pub fivemin_close_broke : Bool
  pub minutes_since_break : ℕ
  pub bounds : List ℕ
  pub price : Option ℕ
  pub touch_threshold : ℕ
  pub time_threshold_min : ℕ

abbrev pub default_touch_threshold : ℕ
default_touch_threshold = 3

abbrev pub default_time_threshold_min : ℕ
default_time_threshold_min = 30

-- "+".join over the tests that passed.
abbrev pub join_reason : Bool → Bool → Reason
join_reason true true = touch_and_time
join_reason true false = touch
join_reason false true = time
join_reason false false = undecided

unfoldable pub compute_range_gate : RangeFacts → RangeVerdict
compute_range_gate f =
    let by_touch = leb f.touch_threshold f.boundary_touches in
    let by_time = leb f.time_threshold_min f.minutes_since_break in
    if f.fivemin_close_broke
    then record {
      range_confirmed = false;
      allow_direction = true;
      price_in_midband = midband f.bounds f.price;
      reason = close_break;
    }
    else record {
      range_confirmed = by_touch || by_time;
      allow_direction = false;
      price_in_midband = midband f.bounds f.price;
      reason = join_reason by_touch by_time;
    }

-- A range is confirmed exactly when no 5m close has broken it and it was touched often enough or
-- has held long enough; a direction is allowed exactly after a 5m close has broken it. So no
-- confirmed range ever allows a direction.
pub range_confirmed_iff :
    (f : RangeFacts)
    → let v = compute_range_gate f in
      ((v.range_confirmed ≡ true) ↔ (
        (f.fivemin_close_broke ≡ false)
        × ((f.touch_threshold ≤ f.boundary_touches)
            ⊎ (f.time_threshold_min ≤ f.minutes_since_break))))
      × ((v.allow_direction ≡ true) ↔ (f.fivemin_close_broke ≡ true))
      × (v.range_confirmed && v.allow_direction ≡ false)
unfolding compute_range_gate
range_confirmed_iff f = ((ground arith, ground arith), (ground arith, ground arith), ground arith)

-- A price that is in the band lies strictly between the bounds, in whichever order they are given.
pub midband_between :
    (a b price : ℕ)
    → midband (a ∷ b ∷ []) (some price) ≡ some true
    → (midband (b ∷ a ∷ []) (some price) ≡ some true) × (min a b < price) × (price < max a b)
unfolding midband
midband_between a b price h = (ground arith, ground arith, ground arith)
