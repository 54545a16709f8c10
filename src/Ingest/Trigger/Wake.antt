-- ===== src/Ingest/Trigger/Wake.antt =====
-- The decision of ingest/trigger.py: the rules of SNR, resonance and invalidation, the cooldown, and
-- the gate of the active thesis.
pub mod Rules
use trading_ai_pipeline.Base.{
  ℕ, String, Bool, true, false, ◌&&◌, ◌||◌, not, Option, none, some, List, any, leb, or_else,
  if◌then◌else◌,
}
use trading_ai_pipeline.Base.Int.{ℤ, leb_ℤ}
use trading_ai_pipeline.Base.Text.{Text, text_eq}
use trading_ai_pipeline.Ingest.Trigger.{
  Raw, AlertEvent, Row, u, says, is_given, within, snr_line, cooldown_min, resonance_window_min,
}
use trading_ai_pipeline.Ingest.Trigger.Mrf.{MrfReason, MrfDecision, mrf_decision}

-- _is_invalidation
unfoldable pub is_invalidation : AlertEvent → Bool
is_invalidation event =
    (event.raw.invalidation_broken || event.raw.invalidated)
    || (says event.event "INVALIDATED"
        || (says event.event "INVALIDATION"
            || (says event.event "BREAK" || says event.event "BROKEN")))

-- `_u(a) == _u(b)`
abbrev pub agrees : Option Text → Option Text → Bool
agrees a b = text_eq (u a) (u b)

-- _resonance
unfoldable pub resonance : ℕ → AlertEvent → List Row → Bool
resonance now event recent =
    let win = within now recent resonance_window_min in
    let sr =
      (says event.engine "SR" && is_given event.grade)
      || any (λ r. says r.engine "SR" && (is_given r.grade && agrees r.dir event.dir)) win in
    let renko =
      says event.engine "RENKO" || any (λ r. says r.engine "RENKO" && agrees r.dir event.dir) win in
    if not (says event.dir "LONG" || says event.dir "SHORT") then false else sr && renko

-- Two line ids that are both given and differ.
abbrev pub other_line : Option Text → Option Text → Bool
other_line (some line) (some rline) =
    is_given (some line) && (is_given (some rline) && not (text_eq line rline))
other_line _ _ = false

-- The test of one wake in the loop of `_in_cooldown`.
abbrev pub repeats : AlertEvent → Row → Bool
repeats event r =
    agrees r.engine event.engine
    && (not (is_given (some (u event.dir)) && not (agrees r.dir event.dir))
        && not (other_line (snr_line event.raw) (or_else r.line (snr_line r.raw))))

-- _in_cooldown
unfoldable pub in_cooldown : ℕ → AlertEvent → List Row → Bool
in_cooldown now event recent_wakes = any (repeats event) (within now recent_wakes cooldown_min)

pub data Reason : Type 0 where
  telemetry : Reason
  mrf : MrfReason → Reason
  snr invalidation resonant noise : Reason
  bypass : Reason → Reason
  cooldown : Reason
  thesis_broken thesis_held : Reason

pub record WakeDecision : Type 0 where
  pub wake : Bool
  pub reason : Reason

-- _wake_candidate
unfoldable pub wake_candidate : ℕ → AlertEvent → List Row → Bool → WakeDecision
wake_candidate now event recent invalidated =
    if says event.engine "SNR" && (says event.event "FIRE" || says event.event "PRIMED")
    then record { wake = true; reason = snr }
    else if invalidated
    then record { wake = true; reason = invalidation }
    else if resonance now event recent
    then record { wake = true; reason = resonant }
    else record { wake = false; reason = noise }

-- The part of `evaluate` after the MRF rule.
unfoldable pub evaluate_candidate : ℕ → AlertEvent → List Row → List Row → WakeDecision
evaluate_candidate now event recent recent_wakes =
    let invalidated = is_invalidation event in
    let candidate = wake_candidate now event recent invalidated in
    if not candidate.wake
    then candidate
    else if invalidated
    then record { wake = true; reason = bypass candidate.reason }
    else if in_cooldown now event recent_wakes
    then record { wake = false; reason = cooldown }
    else candidate

unfoldable pub evaluate : ℕ → AlertEvent → List Row → List Row → WakeDecision
evaluate now event recent recent_wakes =
    if event.raw.telemetry_only
    then record { wake = false; reason = telemetry }
    else elim (mrf_decision now event recent) [
      | some d ↦ record { wake = d.wake; reason = mrf d.reason }
      | none ↦ evaluate_candidate now event recent recent_wakes
    ]

-- The keys of a thesis that the gate reads; a value that is no number or no time is none.
pub record Thesis : Type 0 where
  pub status : Option Text
  pub invalidated : Bool
  pub valid_until : Option ℕ
  pub invalidation : Option ℤ
  pub dir : Option Text

-- _thesis_active
unfoldable pub thesis_active : Option Thesis → ℕ → Bool
thesis_active none now = false
thesis_active (some t) now =
    if not (says t.status "ARMED" || says t.status "IN_TRADE")
    then false
    else if t.invalidated
    then false
    else elim t.valid_until [ none ↦ true | some vu ↦ not (leb vu now) ]

abbrev pub crosses : Option Text → Option ℤ → Option ℤ → Bool
crosses dir (some lvl) (some price) =
    (says dir "LONG" && leb_ℤ price lvl) || (says dir "SHORT" && leb_ℤ lvl price)
crosses dir _ _ = false

-- _event_invalidates
unfoldable pub event_invalidates : AlertEvent → Thesis → Bool
event_invalidates event thesis =
    if is_invalidation event then true else crosses thesis.dir thesis.invalidation event.price

-- The gate of should_wake on a thesis that is active, and should_wake; `now` is the time that the
-- thesis is checked at, and `clock` the time of the windows.
unfoldable pub thesis_gate : AlertEvent → Option Thesis → WakeDecision → WakeDecision
thesis_gate event none otherwise = otherwise
thesis_gate event (some t) otherwise =
    if event_invalidates event t
    then record { wake = true; reason = thesis_broken }
    else record { wake = false; reason = thesis_held }

unfoldable pub should_wake : ℕ → ℕ → List Row → Option Thesis → AlertEvent → List Row → WakeDecision
should_wake clock now recent_events active_thesis new_event recent_wakes =
    let otherwise = evaluate clock new_event recent_events recent_wakes in
    if new_event.raw.telemetry_only
    then record { wake = false; reason = telemetry }
    else if thesis_active active_thesis now
    then thesis_gate new_event active_thesis otherwise
    else otherwise
