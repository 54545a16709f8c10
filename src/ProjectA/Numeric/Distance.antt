-- ===== src/ProjectA/Numeric/Distance.antt =====
-- liquidity_distance: the zone of a level, by cross multiplication. Every difference and product is
-- rounded as the context of decimal rounds it; `abs` of a rounded number is exact.
use trading_ai_pipeline.Base.{
  ℕ, zero, suc, ◌+◌, ◌-◌, ◌*◌, Bool, leb, ◌==◌, Option, none, some, if◌then◌else◌,
}
use trading_ai_pipeline.Base.Int.{ℤ, pos, negsuc, abs}
use trading_ai_pipeline.ProjectA.Numeric.Events.{
  Side, ask, bid, Direction, Zone, near_touch, far, DistanceStatus, LiquidityDistance, Decimals,
}

abbrev minus : ℕ → ℤ
minus zero = pos 0
minus (suc n) = negsuc n

-- a - b
abbrev pub difference : Decimals → ℕ → ℕ → ℤ
difference d a b = if leb b a then pos (d.round (a - b)) else minus (d.round (b - a))

unfoldable pub signed_distance : Decimals → Side → ℕ → ℕ → ℤ
signed_distance d ask level market = difference d level market
signed_distance d bid level market = difference d market level

abbrev pub expected_direction : Side → Direction
expected_direction ask = Direction.up
expected_direction bid = Direction.down

-- absolute * 4 <= atr, absolute * 2 <= atr
unfoldable pub zone_of : Decimals → ℕ → ℕ → Zone
zone_of d absolute atr =
    if leb (d.round (absolute * 4)) atr
    then near_touch
    else if leb (d.round (absolute * 2)) atr
    then Zone.approach
    else far

-- The branches of the function on usable inputs, by the sign of the distance.
unfoldable pub classified : Decimals → Side → ℤ → ℕ → ℕ → LiquidityDistance
classified d side (negsuc n) atr ratio = record {
  signed_distance_price = negsuc n;
  absolute_distance_price = n + 1;
  distance_atr = some ratio;
  distance_zone = none;
  status = DistanceStatus.crossed_pending;
  expected_approach_direction = expected_direction side;
}
classified d side (pos n) atr ratio = record {
  signed_distance_price = pos n;
  absolute_distance_price = n;
  distance_atr = some ratio;
  distance_zone = if n == 0 then none else some (zone_of d n atr);
  status = if n == 0 then DistanceStatus.hit_intersection else DistanceStatus.available;
  expected_approach_direction = expected_direction side;
}

abbrev pub unusable : Side → ℤ → LiquidityDistance
unusable side signed = record {
  signed_distance_price = signed;
  absolute_distance_price = abs signed;
  distance_atr = none;
  distance_zone = none;
  status = DistanceStatus.unavailable;
  expected_approach_direction = expected_direction side;
}

unfoldable pub measured : Decimals → Side → ℤ → Option ℕ → LiquidityDistance
measured d side signed none = unusable side signed
measured d side signed (some atr) =
    if leb atr 0
    then unusable side signed
    else classified d side signed atr (d.divide (abs signed) atr)

unfoldable pub liquidity_distance : Decimals → Side → ℕ → ℕ → Option ℕ → Bool → LiquidityDistance
liquidity_distance d side level market atr inputs_fresh =
    if inputs_fresh
    then measured d side (signed_distance d side level market) atr
    else unusable side (signed_distance d side level market)
