-- ===== src/Ingest/Trigger/Wake/Rules.antt =====
-- What the wake decision guarantees.
use trading_ai_pipeline.Base.{
  ℕ, ◌≤◌, ◌≡◌, ◌⊎◌, refl, Bool, true, false, not, ◌||◌, Option, none, some, List, [], ◌∷◌, any,
  arith,
}
use trading_ai_pipeline.Base.Int.{ℤ, ◌≤ℤ◌}
use trading_ai_pipeline.Ingest.Trigger.{AlertEvent, Row, says, says_other, within, cooldown_min}
use trading_ai_pipeline.Ingest.Trigger.Mrf.{mrf_decision}
use trading_ai_pipeline.Ingest.Trigger.Wake.{
  is_invalidation, repeats, in_cooldown, wake_candidate, evaluate_candidate, evaluate, Thesis,
  thesis_active, event_invalidates, thesis_gate, should_wake,
}

-- An alert of the telemetry adapter never wakes, whatever the thesis, the alerts and the wakes are.
pub telemetry_never_wakes :
    (clock now : ℕ) (recent : List Row) (thesis : Option Thesis) (event : AlertEvent)
    (wakes : List Row)
    → event.raw.telemetry_only ≡ true
    → (should_wake clock now recent thesis event wakes).wake ≡ false
unfolding should_wake
telemetry_never_wakes clock now recent thesis event wakes h = ground arith

-- An SNR alert is no MRF alert.
snr_no_mrf :
    (clock : ℕ) (event : AlertEvent) (recent : List Row)
    → says event.engine "SNR" ≡ true
    → mrf_decision clock event recent ≡ none
unfolding mrf_decision
snr_no_mrf clock event recent h = ground (
  arith,
  says_other event.engine "SNR" "EXP" h,
  says_other event.engine "SNR" "LIQ" h,
  says_other event.engine "SNR" "MACD" h,
  says_other event.engine "SNR" "WMA5S" h,
)

-- Without an active thesis, a FIRE or PRIMED of SNR that is no telemetry wakes exactly when it
-- reports an invalidation or no true wake of the last 15 minutes repeats it: alerts that were only
-- logged do not keep the cooldown alive.
pub snr_wake_iff :
    (clock now : ℕ) (recent : List Row) (thesis : Option Thesis) (event : AlertEvent)
    (wakes : List Row)
    → event.raw.telemetry_only ≡ false
    → thesis_active thesis now ≡ false
    → says event.engine "SNR" ≡ true
    → (says event.event "FIRE" ≡ true) ⊎ (says event.event "PRIMED" ≡ true)
    → (should_wake clock now recent thesis event wakes).wake
      ≡ is_invalidation event || not (in_cooldown clock event wakes)
unfolding should_wake evaluate evaluate_candidate wake_candidate
snr_wake_iff clock now recent thesis event wakes t inactive snr kind =
    ground (arith, snr_no_mrf clock event recent snr)

-- An alert that reports an invalidation, is no telemetry and is of no engine of the MRF rule always
-- wakes, whatever the thesis, the alerts and the cooldown are.
pub invalidation_always_wakes :
    (clock now : ℕ) (recent : List Row) (thesis : Option Thesis) (event : AlertEvent)
    (wakes : List Row)
    → event.raw.telemetry_only ≡ false
    → mrf_decision clock event recent ≡ none
    → is_invalidation event ≡ true
    → (should_wake clock now recent thesis event wakes).wake ≡ true
unfolding should_wake evaluate evaluate_candidate wake_candidate thesis_gate event_invalidates
invalidation_always_wakes clock now recent none event wakes t m i =
    unfold thesis_active in ground arith
invalidation_always_wakes clock now recent (some thesis) event wakes t m i = ground arith

-- While a thesis is active, an alert that is no telemetry wakes exactly when it invalidates the
-- thesis, and then neither the alerts nor the wakes before it matter.
pub active_thesis_gates :
    (clock now : ℕ) (recent : List Row) (thesis : Thesis) (event : AlertEvent) (wakes : List Row)
    → event.raw.telemetry_only ≡ false
    → thesis_active (some thesis) now ≡ true
    → (should_wake clock now recent (some thesis) event wakes).wake ≡ event_invalidates event thesis
unfolding should_wake thesis_gate
active_thesis_gates clock now recent thesis event wakes t active = ground arith

-- A thesis that is not active does not become active as time passes.
pub thesis_expires :
    (thesis : Option Thesis) (now later : ℕ)
    → now ≤ later
    → thesis_active thesis now ≡ false
    → thesis_active thesis later ≡ false
unfolding thesis_active
thesis_expires none now later h e = refl
thesis_expires (some t) now later h e = ground arith

-- Where an alert invalidates a LONG thesis, so does the same alert at every lower price.
pub lower_price_invalidates :
    (event : AlertEvent) (thesis : Thesis) (p q : ℤ)
    → says thesis.dir "LONG" ≡ true
    → q ≤ℤ p
    → event_invalidates (record event { price = some p }) thesis ≡ true
    → event_invalidates (record event { price = some q }) thesis ≡ true
unfolding event_invalidates is_invalidation
lower_price_invalidates event thesis p q long lower h =
    ground (arith, says_other thesis.dir "LONG" "SHORT" long)

-- A wake leaves the window as time passes.
any-within :
    (p : Row → Bool) (now later minutes : ℕ) (rows : List Row)
    → now ≤ later
    → any p (within later rows minutes) ≡ true
    → any p (within now rows minutes) ≡ true
unfolding within
any-within p now later minutes [] h e = e
any-within p now later minutes (r ∷ rows) h e =
    ground (arith, any-within p now later minutes rows h)

-- A cooldown ends for good: an alert that the wakes do not hold back is not held back by the same
-- wakes later.
pub cooldown_ends :
    (event : AlertEvent) (wakes : List Row) (now later : ℕ)
    → now ≤ later
    → in_cooldown now event wakes ≡ false
    → in_cooldown later event wakes ≡ false
unfolding in_cooldown
cooldown_ends event wakes now later h e =
    ground (arith, any-within (repeats event) now later cooldown_min wakes h)
