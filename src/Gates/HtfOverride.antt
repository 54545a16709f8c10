-- ===== src/Gates/HtfOverride.antt =====
-- gates/htf_override.py
use trading_ai_pipeline.Base.{
  ℕ, ◌+◌, ◌≡◌, ◌⊎◌, ◌↔◌, refl, Bool, true, false, not, ◌&&◌, Option, none, some, List, [], ◌∷◌, min,
  arith, if◌then◌else◌,
}
use trading_ai_pipeline.Base.Text.{Text, codes, upper, text_eq, one_of}

pub data Direction : Type 0 where
  bull bear : Direction

abbrev pub same_direction : Direction → Direction → Bool
same_direction bull bull = true
same_direction bear bear = true
same_direction _ _ = false

abbrev pub bull_words : List Text
bull_words = codes "BULL" ∷ codes "BULLISH" ∷ codes "UP" ∷ codes "LONG" ∷ []

abbrev pub bear_words : List Text
bear_words = codes "BEAR" ∷ codes "BEARISH" ∷ codes "DOWN" ∷ codes "SHORT" ∷ []

-- _norm
unfoldable pub norm : Option Text → Option Direction
norm none = none
norm (some direction) =
    let u = upper direction in
    if one_of u bull_words then some bull else if one_of u bear_words then some bear else none

-- TIER_LADDER[min(i + 1, 3)]; a tier that is not on the ladder stays.
unfoldable pub downgrade : Text → Text
downgrade tier =
    if text_eq tier (codes "SNIPER")
    then codes "HIGH"
    else if text_eq tier (codes "HIGH")
    then codes "STAND"
    else if text_eq tier (codes "STAND")
    then codes "WAIT"
    else tier

pub record OverrideVerdict : Type 0 where
  pub triggered : Bool
  pub aligned : Bool
  pub stack_direction : Option Direction
  pub counter_trend : Bool
  pub tier_in : Text
  pub tier_out : Text

abbrev pub eq_direction : Option Direction → Option Direction → Bool
eq_direction none none = true
eq_direction (some x) (some y) = same_direction x y
eq_direction _ _ = false

abbrev pub is_given : Option Direction → Bool
is_given none = false
is_given (some _) = true

unfoldable pub decide_override :
    Option Direction
    → Option Direction
    → Option Direction
    → Option Direction
    → Text
    → OverrideVerdict
decide_override a d w td tier_in =
    let aligned = is_given a && (eq_direction a d && eq_direction d w) in
    let stack = if aligned then a else none in
    let counter_trend = aligned && (is_given td && not (eq_direction td stack)) in
    record {
      triggered = counter_trend;
      aligned = aligned;
      stack_direction = stack;
      counter_trend = counter_trend;
      tier_in = tier_in;
      tier_out = if counter_trend then downgrade tier_in else tier_in;
    }

unfoldable pub compute_htf_override :
    Option Text → Option Text → Option Text → Option Text → Text → OverrideVerdict
compute_htf_override htf_4h htf_daily htf_weekly trade_direction tier =
    decide_override (norm htf_4h) (norm htf_daily) (norm htf_weekly) (norm trade_direction)
      (upper tier)

decide_override_lem :
    (a d w td : Option Direction) (tier : Text)
    → ((decide_override a d w td tier).triggered ≡ true) ↔ (
        ((a ≡ some bull) × (d ≡ some bull) × (w ≡ some bull) × (td ≡ some bear))
        ⊎ ((a ≡ some bear) × (d ≡ some bear) × (w ≡ some bear) × (td ≡ some bull)))
unfolding decide_override
decide_override_lem a d w td tier = (ground arith, ground arith)

-- TIER_LADDER, and TIER_LADDER.index.
abbrev pub tier_ladder : List Text
tier_ladder = codes "SNIPER" ∷ codes "HIGH" ∷ codes "STAND" ∷ codes "WAIT" ∷ []

abbrev pub index : Text → List Text → Option ℕ
index t [] = none
index t (u ∷ us) =
    if text_eq t u then some 0 else elim (index t us) [ none ↦ none | some i ↦ some (i + 1) ]

abbrev pub step_down : Option ℕ → Option ℕ
step_down none = none
step_down (some i) = some (min (i + 1) 3)

downgrade-index : (t : Text) → index (downgrade t) tier_ladder ≡ step_down (index t tier_ladder)
unfolding downgrade
downgrade-index t = ground arith

moved-index :
    (b : Bool) (t : Text)
    → index (if b then downgrade t else t) tier_ladder
      ≡ (if b then step_down (index t tier_ladder) else index t tier_ladder)
moved-index true t = downgrade-index t
moved-index false t = refl

-- The override triggers exactly when the three higher time frames agree on a direction and the
-- trade goes against it; the tier then moves one step down the ladder SNIPER, HIGH, STAND, WAIT,
-- and stays at WAIT, and it does not move otherwise.
pub htf_override_iff :
    (htf_4h htf_daily htf_weekly trade_direction : Option Text) (tier : Text)
    → let v = compute_htf_override htf_4h htf_daily htf_weekly trade_direction tier in
      let a = norm htf_4h in
      let d = norm htf_daily in
      let w = norm htf_weekly in
      let td = norm trade_direction in
      ((v.triggered ≡ true) ↔ (
        ((a ≡ some bull) × (d ≡ some bull) × (w ≡ some bull) × (td ≡ some bear))
        ⊎ ((a ≡ some bear) × (d ≡ some bear) × (w ≡ some bear) × (td ≡ some bull))))
      × (index v.tier_out tier_ladder ≡ (
          if v.triggered
          then step_down (index (upper tier) tier_ladder)
          else index (upper tier) tier_ladder))
htf_override_iff htf_4h htf_daily htf_weekly trade_direction tier = (
  unfold compute_htf_override in
      decide_override_lem (norm htf_4h) (norm htf_daily) (norm htf_weekly) (norm trade_direction)
        (upper tier),
  unfold compute_htf_override decide_override in
      moved-index (compute_htf_override htf_4h htf_daily htf_weekly trade_direction tier).triggered
        (upper tier),
)
