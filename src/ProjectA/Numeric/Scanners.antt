-- ===== src/ProjectA/Numeric/Scanners.antt =====
-- The scanner events of a view only grow in the fold, so a view without a conflict is reached through
-- views without one.
use trading_ai_pipeline.Base.{◌≡◌, ◌∙◌, false, some, ◌∷◌, arith, Bool-cases, inl, inr}
use trading_ai_pipeline.ProjectA.Numeric.Events.{CanonicalEvent, Decimals, Payload}
use trading_ai_pipeline.ProjectA.Numeric.View.{View, ok, ExpansionEvent}
use trading_ai_pipeline.ProjectA.Numeric.Fold.{
  add_price, add_expansion, add_liquidity, write_level, add_renko, reselect, step_with,
  has_conflict,
}
use trading_ai_pipeline.ProjectA.Numeric.Histories.{
  add_price-Keeps, reselect-Keeps, add_expansion-histories, liquidity-Keeps,
}

-- The scanner events of a view and those that stand behind its newest one.
pub data Grows (v w : View) : Type 0 where
  same : w.scanners ≡ v.scanners → Grows v w
  one : (x : ExpansionEvent) → w.scanners ≡ x ∷ v.scanners → Grows v w

pub Grows-no_conflict :
    (v w : View) → Grows v w → has_conflict w.scanners ≡ false → has_conflict v.scanners ≡ false
unfolding has_conflict
Grows-no_conflict v w (same e) h = rw (← e) h
Grows-no_conflict v w (one x e) h = ground (arith, rw e at h)

pub step-Grows :
    (d : Decimals) (e : CanonicalEvent) (p : Payload) (v w : View)
    → step_with d e p v ≡ ok w
    → Grows v w
unfolding step_with add_liquidity add_renko
step-Grows d e (Payload.expansion x) v w h =
    let priced = add_price d e x.market_price v in
    let kept = add_price-Keeps d e x.market_price v in
    elim (Bool-cases x.is_scanner) [
      | inl c ↦ one (record { event = e; expansion = x }) (ground (arith, h, c, kept.0))
      | inr c ↦
          let k : reselect e (add_expansion e x priced) ≡ w = ground (arith, h, c) in
          same (
            rw (← k) (
              (reselect-Keeps e (add_expansion e x priced)).0
              ∙ (add_expansion-histories e x priced).0
              ∙ kept.0))
    ]
step-Grows d e (Payload.liquidity l) v w h =
    let k : reselect e (write_level d e l (add_price d e (some l.market_price) v)) ≡ w =
      ground (arith, h) in
    same (rw (← k) (liquidity-Keeps d e l v).0)
step-Grows d e (Payload.renko r) v w h =
    let k : reselect e (add_renko e r v) ≡ w = ground (arith, h) in
    same (rw (← k) (reselect-Keeps e (add_renko e r v)).0)
