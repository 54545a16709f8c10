-- ===== src/Gates/SignalTier.antt =====
-- gates/signal_tier.py. Colours are left out.
use trading_ai_pipeline.Base.{
  ℕ, ◌≤◌, ◌≡◌, refl, Bool, true, not, List, [], ◌∷◌, any, select, is_empty, arith, if◌then◌else◌,
}

pub data Signal : Type 0 where
  m5_close_struct_flip htf_macd_flip major_snr_break thesis_invalidated : Signal
  m5_close_against reversal_candles_2plus m5_macd_hist_flip near_key_snr dxy_sharp_adverse : Signal
  single_wick m1_hist_flip single_counter_candle spread_widening_brief : Signal

pub data Tier : Type 0 where
  red orange yellow none : Tier

pub data Action : Type 0 where
  cut tighten hold : Action

pub record TierRule : Type 0 where
  pub tier : Tier
  pub action : Action
  pub keys : List Signal

abbrev pub tier_rules : List TierRule
tier_rules =
    record {
      tier = red;
      action = cut;
      keys = m5_close_struct_flip ∷ htf_macd_flip ∷ major_snr_break ∷ thesis_invalidated ∷ [];
    }
    ∷ record {
      tier = orange;
      action = tighten;
      keys =
          m5_close_against ∷ reversal_candles_2plus ∷ m5_macd_hist_flip ∷ near_key_snr
          ∷ dxy_sharp_adverse ∷ [];
    }
    ∷ record {
      tier = yellow;
      action = hold;
      keys = single_wick ∷ m1_hist_flip ∷ single_counter_candle ∷ spread_widening_brief ∷ [];
    }
    ∷ []

pub record TierVerdict : Type 0 where
  pub tier : Tier
  pub action : Action
  pub reasons : List Signal

-- The loop: the first rule with a signal decides. A missing key is False.
unfoldable pub evaluate_rules : (Signal → Bool) → List TierRule → TierVerdict
evaluate_rules src [] = record { tier = none; action = hold; reasons = [] }
evaluate_rules src (rule ∷ rules) =
    let reasons = select src rule.keys in
    let rest = evaluate_rules src rules in
    if is_empty reasons
    then rest
    else record { tier = rule.tier; action = rule.action; reasons = reasons }

unfoldable pub evaluate_signal_tier : (Signal → Bool) → TierVerdict
unfolding evaluate_rules
evaluate_signal_tier src = evaluate_rules src tier_rules

abbrev pub severity : Tier → ℕ
severity red = 3
severity orange = 2
severity yellow = 1
severity none = 0

is_empty-select :
    (src : Signal → Bool) (keys : List Signal) → is_empty (select src keys) ≡ not (any src keys)
is_empty-select src [] = refl
is_empty-select src (k ∷ keys) = ground (arith, is_empty-select src keys)

any_mono :
    (src src' : Signal → Bool) (keys : List Signal)
    → ((s : Signal) → src s ≡ true → src' s ≡ true)
    → any src keys ≡ true
    → any src' keys ≡ true
any_mono src src' [] more h = h
any_mono src src' (k ∷ keys) more h = ground (arith, more k, any_mono src src' keys more)

abbrev red_keys : List Signal
red_keys = m5_close_struct_flip ∷ htf_macd_flip ∷ major_snr_break ∷ thesis_invalidated ∷ []

abbrev orange_keys : List Signal
orange_keys =
    m5_close_against ∷ reversal_candles_2plus ∷ m5_macd_hist_flip ∷ near_key_snr ∷ dxy_sharp_adverse
    ∷ []

abbrev yellow_keys : List Signal
yellow_keys = single_wick ∷ m1_hist_flip ∷ single_counter_candle ∷ spread_widening_brief ∷ []

-- The verdict is a verdict of its heaviest signal.
severity_lem :
    (src : Signal → Bool)
    → severity (evaluate_signal_tier src).tier ≡ (
        if any src red_keys
        then 3
        else if any src orange_keys
        then 2
        else if any src yellow_keys
        then 1
        else 0)
unfolding evaluate_signal_tier
severity_lem src = ground arith

-- More signals never give a lighter tier.
pub tier_mono :
    (src src' : Signal → Bool)
    → ((s : Signal) → src s ≡ true → src' s ≡ true)
    → severity (evaluate_signal_tier src).tier ≤ severity (evaluate_signal_tier src').tier
tier_mono src src' more = ground (
  arith,
  severity_lem src,
  severity_lem src',
  any_mono src src' red_keys more,
  any_mono src src' orange_keys more,
  any_mono src src' yellow_keys more,
)
