-- ===== src/Ingest/Service/Validate.antt =====
-- The checks of service.py on a document whose contract is valid: _validate_v02_lifecycle_support,
-- _runtime_validate and _validate_snr. The first check that fails is the one that is raised. The clock
-- is so far from the last year of datetime that adding the tolerance to it does not overflow.
use trading_ai_pipeline.Base.{
  ◌+◌, ◌*◌, ltb, Bool, true, false, not, ◌&&◌, Option, none, some, str_eq, if◌then◌else◌,
}
use trading_ai_pipeline.Base.Int.{ℤ, pos, ltb_ℤ}
use trading_ai_pipeline.Output.Stamp.{Time}
use trading_ai_pipeline.Ingest.Service.Lifecycle.{EventClass, EventType, is_telemetry}
use trading_ai_pipeline.Ingest.Service.Rows.{
  ProjectAConfig, Event, Payload, Field, number, BarTime, unreadable, Disposition, RuntimeReject,
  RejectCode, unsupported_lifecycle_v02, wrong_symbol, wrong_timeframe, event_type_class_mismatch,
  bar_time_invalid, client_authority_prohibited, future_timestamp, stale_timestamp, malformed_snr,
  spread_format_ambiguous, spread_points_required, spread_gate_failed, analysis_ready_not_accepted,
  micros,
}

abbrev pub reject : RejectCode → RuntimeReject
reject code = record { code = code; status = 422; replay_eligible = true }

abbrev pub reject_for_good : RejectCode → RuntimeReject
reject_for_good code = record { code = code; status = 422; replay_eligible = false }

-- `if test: raise error`, and the checks after it.
abbrev pub raise_if : Bool → RuntimeReject → Option RuntimeReject → Option RuntimeReject
raise_if test error rest = if test then some error else rest

abbrev pub is_lifecycle : EventClass → Bool
is_lifecycle EventClass.lifecycle = true
is_lifecycle _ = false

abbrev pub is_analysis_ready : EventClass → Bool
is_analysis_ready EventClass.analysis_ready = true
is_analysis_ready _ = false

abbrev pub has_snr : EventClass → Bool
has_snr EventClass.candidate = true
has_snr EventClass.analysis_ready = true
has_snr _ = false

-- The disposition that a supported lifecycle event has.
abbrev pub supported : EventType → Disposition → Bool
supported EventType.setup_invalidated Disposition.structural_break = true
supported EventType.setup_expired Disposition.expired = true
supported _ _ = false

unfoldable pub validate_v02_lifecycle_support : Event → Option RuntimeReject
validate_v02_lifecycle_support e =
    raise_if (is_lifecycle e.event_class && not (supported e.event_type e.disposition))
      (reject unsupported_lifecycle_v02) none

-- _CLASS_TYPES
unfoldable pub class_has : EventClass → EventType → Bool
class_has EventClass.telemetry EventType.snr_update = true
class_has EventClass.telemetry EventType.expansion_update = true
class_has EventClass.candidate EventType.setup_candidate = true
class_has EventClass.analysis_ready EventType.snr_rejection_ready = true
class_has EventClass.analysis_ready EventType.snr_break_ready = true
class_has EventClass.lifecycle EventType.setup_invalidated = true
class_has EventClass.lifecycle EventType.setup_expired = true
class_has EventClass.lifecycle EventType.entry_window_open = true
class_has EventClass.lifecycle EventType.entry_window_closed = true
class_has EventClass.lifecycle EventType.thesis_invalidated = true
class_has _ _ = false

abbrev pub is_unreadable : BarTime → Bool
is_unreadable unreadable = true
is_unreadable _ = false

abbrev pub is_expiry : EventType → Bool
is_expiry EventType.setup_expired = true
is_expiry _ = false

unfoldable pub is_future : ProjectAConfig → Time → Event → Bool
is_future c now e = ltb (micros now + c.future_tolerance_seconds * 1000000) (micros e.occurred)

unfoldable pub is_stale : ProjectAConfig → Time → Event → Bool
is_stale c now e =
    ltb (micros e.occurred + c.stale_after_seconds * 1000000) (micros now)
    && not (is_expiry e.event_type)

abbrev pub bounds_malformed : Field → Field → Bool
bounds_malformed (number low) (number high) = ltb_ℤ high low
bounds_malformed _ _ = true

unfoldable pub validate_snr : Payload → Option RuntimeReject → Option RuntimeReject
validate_snr p rest = raise_if (bounds_malformed p.snr_low p.snr_high) (reject malformed_snr) rest

abbrev pub spread_missing : Field → Bool
spread_missing (number (pos n)) = false
spread_missing _ = true

abbrev pub spread_above : ℤ → Field → Bool
spread_above limit (number n) = ltb_ℤ limit n
spread_above limit _ = false

abbrev pub is_accepted : Disposition → Bool
is_accepted Disposition.accepted = true
is_accepted _ = false

unfoldable pub validate_ready : ProjectAConfig → Event → Option RuntimeReject
validate_ready c e = raise_if e.payload.has_ambiguous_spread (reject spread_format_ambiguous) (
    raise_if (spread_missing e.payload.spread_points) (reject spread_points_required) (
      raise_if (spread_above c.max_spread_points e.payload.spread_points)
        (reject_for_good spread_gate_failed)
        (raise_if (not (is_accepted e.disposition)) (reject analysis_ready_not_accepted) none)))

unfoldable pub validate_evidence : ProjectAConfig → Event → Option RuntimeReject
validate_evidence c e =
    let ready = if is_analysis_ready e.event_class then validate_ready c e else none in
    if has_snr e.event_class then validate_snr e.payload ready else ready

unfoldable pub validate_times : ProjectAConfig → Time → Event → Option RuntimeReject
validate_times c now e =
    raise_if (is_future c now e) (reject future_timestamp)
      (raise_if (is_stale c now e) (reject stale_timestamp) (validate_evidence c e))

unfoldable pub runtime_validate : ProjectAConfig → Time → Event → Option RuntimeReject
runtime_validate c now e =
    raise_if (not (str_eq e.symbol c.enabled_symbol)) (reject_for_good wrong_symbol) (
      raise_if (not (is_telemetry e.event_class) && not (str_eq e.timeframe c.base_timeframe))
        (reject_for_good wrong_timeframe)
        (raise_if (not (class_has e.event_class e.event_type)) (reject event_type_class_mismatch) (
          raise_if (is_unreadable e.payload.bar_time) (reject bar_time_invalid) (
            raise_if e.payload.has_authority_field (reject_for_good client_authority_prohibited)
              (validate_times c now e)))))
