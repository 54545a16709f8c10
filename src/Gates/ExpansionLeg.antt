-- ===== src/Gates/ExpansionLeg.antt =====
-- gates/expansion_leg.py. The reason text is left out.
use trading_ai_pipeline.Base.{◌≡◌, ◌↔◌, arith, if◌then◌else◌}
use trading_ai_pipeline.Base.Text.{Text, codes, lower, text_eq}

pub data LegVerdict : Type 0 where
  positive downgrade dont_fade skip : LegVerdict

pub data GradeEffect : Type 0 where
  add_confidence downgrade none skip : GradeEffect

pub record LegResult : Type 0 where
  pub verdict : LegVerdict
  pub grade_effect : GradeEffect
  pub quality : Text
  pub length : Text

unfoldable pub evaluate_expansion_leg : Text → Text → LegResult
evaluate_expansion_leg quality length =
    let q = lower quality in
    let ln = lower length in
    if text_eq ln (codes "too_short")
    then record {
      verdict = LegVerdict.skip;
      grade_effect = GradeEffect.skip;
      quality = q;
      length = ln;
    }
    else if text_eq ln (codes "too_long")
    then record { verdict = dont_fade; grade_effect = GradeEffect.none; quality = q; length = ln }
    else if text_eq q (codes "choppy")
    then record {
      verdict = LegVerdict.downgrade;
      grade_effect = GradeEffect.downgrade;
      quality = q;
      length = ln;
    }
    else record { verdict = positive; grade_effect = add_confidence; quality = q; length = ln }

-- The length of the leg decides before its quality: a leg that is too short or too long gets the
-- same verdict and effect at every quality.
pub length_first :
    (quality quality' length : Text)
    → let v = evaluate_expansion_leg quality length in
      let w = evaluate_expansion_leg quality' length in
      ((v.verdict ≡ LegVerdict.skip) ↔ (w.verdict ≡ LegVerdict.skip))
      × ((v.verdict ≡ dont_fade) ↔ (w.verdict ≡ dont_fade))
unfolding evaluate_expansion_leg
length_first quality quality' length = ((ground arith, ground arith), (ground arith, ground arith))
