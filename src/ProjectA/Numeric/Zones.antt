-- ===== src/ProjectA/Numeric/Zones.antt =====
-- The boundaries of the zones of liquidity_distance.
use trading_ai_pipeline.Base.{ℕ, ◌*◌, ◌-◌, ◌≡◌, ap, ◌≤◌, ◌<◌, ◌↔◌, true, some, arith}
use trading_ai_pipeline.Base.Int.{pos}
use trading_ai_pipeline.ProjectA.Numeric.Events.{Side, ask, bid, Zone, near_touch, far, Decimals}
use trading_ai_pipeline.ProjectA.Numeric.Distance.{
  signed_distance, zone_of, classified, measured, liquidity_distance,
}

-- 10 ** 28: below it, a whole number has at most 28 digits.
abbrev pub ten_to_28 : ℕ
ten_to_28 = 10000000000000000000000000000

-- How far the market is from the level, on the side from which it approaches.
abbrev pub gap : Side → ℕ → ℕ → ℕ
gap ask level market = level - market
gap bid level market = market - level

module _ (d : Decimals) (exact : (n : ℕ) → n < ten_to_28 → d.round n ≡ n) where
  zone_of_near : (n atr : ℕ) → n * 4 < ten_to_28 → (zone_of d n atr ≡ near_touch) ↔ (n * 4 ≤ atr)
  unfolding zone_of
  zone_of_near n atr s = ground (arith, exact (n * 4) s, exact (n * 2) (omega arith))

  zone_of_approach :
      (n atr : ℕ)
      → n * 4 < ten_to_28
      → (zone_of d n atr ≡ Zone.approach) ↔ ((atr < n * 4) × (n * 2 ≤ atr))
  unfolding zone_of
  zone_of_approach n atr s = ground (arith, exact (n * 4) s, exact (n * 2) (omega arith))

  zone_of_far : (n atr : ℕ) → n * 4 < ten_to_28 → (zone_of d n atr ≡ far) ↔ (atr < n * 2)
  unfolding zone_of
  zone_of_far n atr s = ground (arith, exact (n * 4) s, exact (n * 2) (omega arith))

  signed_gap :
      (side : Side) (level market : ℕ)
      → 0 < gap side level market
      → gap side level market < ten_to_28
      → signed_distance d side level market ≡ pos (gap side level market)
  unfolding signed_distance
  signed_gap ask level market p s = ground (arith, p, exact (level - market) s)
  signed_gap bid level market p s = ground (arith, p, exact (market - level) s)

  available_zone :
      (side : Side) (level market atr n : ℕ)
      → 0 < atr
      → 0 < n
      → signed_distance d side level market ≡ pos n
      → (liquidity_distance d side level market (some atr) true).distance_zone
        ≡ some (zone_of d n atr)
  unfolding liquidity_distance measured classified
  available_zone side level market atr n a p s = rw s (ground (arith, a, p))

-- Where the context of decimal keeps every number under 28 digits of the common unit as it is, with fresh
-- inputs, a positive ATR, and a market before the level by a gap of which the fourfold has at most 28
-- digits: the zone is NEAR_TOUCH exactly up to a quarter of the ATR, APPROACH exactly from there to a
-- half, and FAR exactly beyond.
pub zone_boundaries :
    (d : Decimals) (side : Side) (level market atr : ℕ)
    → ((n : ℕ) → n < ten_to_28 → d.round n ≡ n)
    → 0 < atr
    → 0 < gap side level market
    → gap side level market * 4 < ten_to_28
    → let zone = (liquidity_distance d side level market (some atr) true).distance_zone in
      let n = gap side level market in
      ((zone ≡ some near_touch) ↔ (n * 4 ≤ atr))
      × ((zone ≡ some Zone.approach) ↔ ((atr < n * 4) × (n * 2 ≤ atr)))
      × ((zone ≡ some far) ↔ (atr < n * 2))
zone_boundaries d side level market atr exact a p s =
    let n = gap side level market in
    let signed = signed_gap d exact side level market p (omega arith) in
    rw (available_zone d exact side level market atr n a p signed) (
      (
        λ e. (zone_of_near d exact n atr s).0 (same_some e),
        λ k. ap some ((zone_of_near d exact n atr s).1 k),
      ),
      (
        λ e. (zone_of_approach d exact n atr s).0 (same_some e),
        λ k. ap some ((zone_of_approach d exact n atr s).1 k),
      ),
      (
        λ e. (zone_of_far d exact n atr s).0 (same_some e),
        λ k. ap some ((zone_of_far d exact n atr s).1 k),
      ),
    )
  where
    same_some : {x y : Zone} → some x ≡ some y → x ≡ y
    same_some e = ground (arith, e)
