-- ===== src/Ingest/Tests.antt =====
-- The wake decision on concrete alerts.
use trading_ai_pipeline.Base.{ℕ, ◌*◌, ◌≡◌, ◌⊎◌, refl, true, false, none, some, [], ◌∷◌, Memᴰ}
use trading_ai_pipeline.Base.Int.{pos}
use trading_ai_pipeline.Base.Text.{codes, upper, strip}
use trading_ai_pipeline.Ingest.Trigger.{
  Raw, AlertEvent, Row, u, says, within, is_within, minute, mrf_veto_min,
}
use trading_ai_pipeline.Ingest.Trigger.Mrf.{
  Fade, MrfReason, MrfDecision, fade_dir, any_fade, mrf_vetoed, mrf_in_cooldown, mrf_evidence,
  fade_pick, macd_confirm, mrf_fade_decision, mrf_decision, stays, vetoes,
}
use trading_ai_pipeline.Ingest.Trigger.Mrf.Pairs.{IsPartner, mrf_wake_paired}
use trading_ai_pipeline.Ingest.Trigger.Wake.{Thesis}

abbrev plain : Raw
plain = record {
  telemetry_only = false;
  invalidation_broken = false;
  invalidated = false;
  side = none;
  dir = none;
  grade = none;
  tf = none;
  line = none;
  snr_line = none;
  line_id = none;
  level = none;
}

abbrev fire : AlertEvent
fire = record {
  engine = some (codes "snr");
  event = some (codes "Fire");
  dir = some (codes "long");
  grade = none;
  price = some (pos 4010);
  raw = plain;
}

abbrev wake_row : Row
wake_row = record {
  engine = some (codes "SNR");
  event = some (codes "PRIMED");
  dir = some (codes "LONG");
  grade = none;
  tf = none;
  line = none;
  ts = some (100 * minute);
  raw = plain;
}

abbrev exp_up : Row
exp_up = record {
  engine = some (codes "EXP");
  event = some (codes "EXP_UP");
  dir = none;
  grade = some (codes "A");
  tf = none;
  line = none;
  ts = some (90 * minute);
  raw = plain;
}

abbrev liq_ask : Row
liq_ask = record exp_up {
  engine = some (codes "LIQ");
  event = some (codes "TOUCH");
  ts = some (99 * minute);
  raw = record plain { side = some (codes "ask") };
}

abbrev touch : AlertEvent
touch = record fire {
  engine = some (codes "LIQ");
  event = some (codes "SWEEP");
  dir = none;
  raw = record plain { side = some (codes "ASK") };
}

abbrev now : ℕ
now = 100 * minute

abbrev woken : MrfDecision
woken = record { wake = true; reason = MrfReason.pair Fade.short (some (codes "A")) none none }

woken_ok : mrf_decision now touch (exp_up ∷ []) ≡ some woken
unfolding mrf_decision mrf_fade_decision mrf_evidence mrf_vetoed mrf_in_cooldown fade_dir fade_pick
    macd_confirm any_fade within says u upper strip
woken_ok = refl

mrf_wake_paired_example :
    (fade : Fade) × (fade_dir touch.engine touch.event touch.dir touch.raw ≡ some fade)
    × (((says touch.engine "EXP" ≡ true) × IsPartner now (exp_up ∷ []) "LIQ" fade)
        ⊎ ((says touch.engine "LIQ" ≡ true) × IsPartner now (exp_up ∷ []) "EXP" fade))
    × ((r : Row)
        → Memᴰ r (exp_up ∷ [])
        → is_within now mrf_veto_min r ≡ true
        → vetoes fade r ≡ false)
mrf_wake_paired_example = mrf_wake_paired now touch (exp_up ∷ []) woken woken_ok refl

held_back :
    mrf_decision now touch (liq_ask ∷ exp_up ∷ []) ≡ some (stays (MrfReason.in_cooldown Fade.short))
unfolding mrf_decision mrf_fade_decision mrf_evidence mrf_vetoed mrf_in_cooldown fade_dir fade_pick
    macd_confirm any_fade within says u upper strip
held_back = refl

abbrev telemetry : AlertEvent
telemetry = record fire { raw = record plain { telemetry_only = true } }

abbrev broken : AlertEvent
broken = record fire { event = some (codes "broken") }

abbrev thesis : Thesis
thesis = record {
  status = some (codes "ARMED");
  invalidated = false;
  valid_until = some (200 * minute);
  invalidation = some (pos 4005);
  dir = some (codes "long");
}
