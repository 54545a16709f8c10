-- ===== src/Ingest/Service/Lifecycle.antt =====
-- ingest/project_a/state.py: the transitions of a setup. A state is the event type that it is named
-- after, and `none` is a setup that is not stored.
use trading_ai_pipeline.Base.{Bool, true, false, ◌||◌, Option, some, is_some, not, if◌then◌else◌}

pub data EventClass : Type 0 where
  telemetry candidate analysis_ready lifecycle : EventClass

pub data EventType : Type 0 where
  snr_update expansion_update setup_candidate snr_rejection_ready snr_break_ready : EventType
  setup_invalidated setup_expired entry_window_open entry_window_closed : EventType
  thesis_invalidated : EventType

pub data ReasonCode : Type 0 where
  telemetry_recorded evidence_updated terminal_setup_reopen candidate_created : ReasonCode
  candidate_updated candidate_after_readiness direct_analysis_ready ready : ReasonCode
  ready_from_illegal_state entry_window_opened entry_window_without_ready : ReasonCode
  invalidated expired lifecycle_without_setup window_closed close_without_ready : ReasonCode
  thesis_ended thesis_without_ready event_type_class_mismatch : ReasonCode

pub record Transition : Type 0 where
  pub allowed : Bool
  pub next_state : Option EventType
  pub persist_state : Bool
  pub create_outbox : Bool
  pub reason_code : ReasonCode

-- TERMINAL_STATES
abbrev pub is_terminal : Option EventType → Bool
is_terminal (some EventType.setup_invalidated) = true
is_terminal (some EventType.setup_expired) = true
is_terminal (some EventType.entry_window_closed) = true
is_terminal (some EventType.thesis_invalidated) = true
is_terminal _ = false

-- READY_STATES
abbrev pub is_ready : Option EventType → Bool
is_ready (some EventType.snr_rejection_ready) = true
is_ready (some EventType.snr_break_ready) = true
is_ready _ = false

abbrev pub is_candidate : Option EventType → Bool
is_candidate (some EventType.setup_candidate) = true
is_candidate _ = false

abbrev pub is_open : Option EventType → Bool
is_open (some EventType.entry_window_open) = true
is_open _ = false

abbrev pub is_telemetry : EventClass → Bool
is_telemetry EventClass.telemetry = true
is_telemetry _ = false

abbrev pub refused : Option EventType → ReasonCode → Transition
refused current reason = record {
  allowed = false;
  next_state = current;
  persist_state = false;
  create_outbox = false;
  reason_code = reason;
}

abbrev pub moved : EventType → Bool → ReasonCode → Transition
moved next outbox reason = record {
  allowed = true;
  next_state = some next;
  persist_state = true;
  create_outbox = outbox;
  reason_code = reason;
}

abbrev pub recorded : Option EventType → Transition
recorded current = record {
  allowed = true;
  next_state = current;
  persist_state = is_some current;
  create_outbox = false;
  reason_code = if is_some current then evidence_updated else telemetry_recorded;
}

abbrev pub first_or : ReasonCode → ReasonCode → Option EventType → ReasonCode
first_or first later current = if is_some current then later else first

abbrev pub became_ready : EventType → Option EventType → Transition
became_ready type current =
    if not (is_some current) || is_candidate current || is_ready current
    then moved type true (first_or direct_analysis_ready ready current)
    else refused current ready_from_illegal_state

abbrev pub from_ready : EventType → ReasonCode → ReasonCode → Option EventType → Transition
from_ready type done without current =
    if is_ready current || is_open current then moved type false done else refused current without

abbrev pub ended : EventType → ReasonCode → Option EventType → Transition
ended type done current =
    if is_some current then moved type false done else refused current lifecycle_without_setup

unfoldable pub by_type : EventType → Option EventType → Transition
by_type EventType.setup_candidate current =
    if not (is_some current) || is_candidate current
    then moved EventType.setup_candidate false
        (first_or candidate_created candidate_updated current)
    else refused current candidate_after_readiness
by_type EventType.snr_rejection_ready current = became_ready EventType.snr_rejection_ready current
by_type EventType.snr_break_ready current = became_ready EventType.snr_break_ready current
by_type EventType.entry_window_open current =
    from_ready EventType.entry_window_open entry_window_opened entry_window_without_ready current
by_type EventType.setup_invalidated current = ended EventType.setup_invalidated invalidated current
by_type EventType.setup_expired current = ended EventType.setup_expired expired current
by_type EventType.entry_window_closed current =
    from_ready EventType.entry_window_closed window_closed close_without_ready current
by_type EventType.thesis_invalidated current =
    from_ready EventType.thesis_invalidated thesis_ended thesis_without_ready current
by_type _ current = refused current event_type_class_mismatch

unfoldable pub transition : Option EventType → EventClass → EventType → Transition
transition current class type =
    if is_telemetry class
    then recorded current
    else if is_terminal current
    then refused current terminal_setup_reopen
    else by_type type current
