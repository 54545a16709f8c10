-- ===== src/Ingest/Service/Tests/Data.antt =====
-- Events, settings and calls for the tests of the ingest service.
use trading_ai_pipeline.Base.{
  ℕ, String, true, false, Option, none, some, [], ◌∷◌, str_eq, if◌then◌else◌,
}
use trading_ai_pipeline.Base.Int.{pos}
use trading_ai_pipeline.Base.Table.{find}
use trading_ai_pipeline.Output.Stamp.{Time}
use trading_ai_pipeline.Ingest.Service.Lifecycle.{
  EventClass, EventType, snr_rejection_ready, setup_invalidated,
}
use trading_ai_pipeline.Ingest.Service.Rows.{
  failed, gave_up, ProjectAConfig, Event, Payload, Disposition, missing, number, Hashes, Ids,
  IngestResult, ResultCode, SetupRow, OutboxRow, OutboxStatus, Db, empty_db, persistence_failure,
  iso,
}
use trading_ai_pipeline.Ingest.Service.Commit.{state_of}
use trading_ai_pipeline.Ingest.Service.Receive.{
  Setting, Request, Reading, unparsable, object, supported, valid, receive,
}
use trading_ai_pipeline.Ingest.Service.Outbox.{
  change, failed_row, attempt, claim_outbox, deliver_outbox, retry_outbox, claimed_row,
}

abbrev pub config : ProjectAConfig
config = record {
  max_body_bytes = 262144;
  future_tolerance_seconds = 5;
  stale_after_seconds = 1800;
  claim_timeout_seconds = 300;
  max_outbox_attempts = 5;
  enabled_symbol = "XAUUSD";
  base_timeframe = "1m";
  max_spread_points = pos 10;
}

abbrev pub payload : Payload
payload = record {
  bar_time = missing;
  has_authority_field = false;
  has_ambiguous_spread = false;
  spread_points = number (pos 4);
  snr_low = number (pos 3300);
  snr_high = number (pos 3310);
  canonical = "{}";
}

abbrev pub event_at : ℕ → String → EventClass → EventType → Disposition → Event
event_at second id class type disposition = record {
  event_id = id;
  correlation_id = "corr_00000001";
  causation_id = none;
  occurred_at = record { sec = second; tail = b'Z' ∷ [] };
  occurred = record { sec = second; micro = 0 };
  symbol = "XAUUSD";
  timeframe = "1m";
  event_class = class;
  event_type = type;
  setup_id = some "setup_00000001";
  hypothesis = some "LONG";
  path = some "SNR_REJECTION";
  disposition = disposition;
  reason_code = "OK";
  payload = payload;
  canonical = id;
  renders = true;
}

abbrev pub ready_event : Event
ready_event =
    event_at 1000 "evt_ready0001" EventClass.analysis_ready snr_rejection_ready Disposition.accepted

abbrev pub broken_event : Event
broken_event =
    event_at 1060 "evt_broken001" EventClass.lifecycle setup_invalidated
      Disposition.structural_break

abbrev pub type_name : EventType → String
type_name snr_rejection_ready = "ready"
type_name _ = "other"

abbrev pub hashes : Hashes
hashes = record {
  body = λ b. b;
  canonical = λ c. c;
  evidence = λ e. type_name e.event_type;
  dispatch = λ setup fingerprint. fingerprint;
  dead_letter = λ code event setup. "dead";
}

abbrev pub read : String → Reading
read body =
    if str_eq body "ready"
    then object (some "evt_ready0001") (some "setup_00000001") supported (valid ready_event)
    else if str_eq body "broken"
    then object (some "evt_broken001") (some "setup_00000001") supported (valid broken_event)
    else unparsable

abbrev pub setting : Setting
setting = record {
  config = config;
  hashes = hashes;
  reader = record { read = read; size = λ b. 500; recordable = λ b. true };
}

abbrev pub ids : String → Ids
ids id = record { ingest_id = id; outbox_id = id; dead_letter_id = id; rejection_id = id }

abbrev pub posted : String → Request
posted body = record {
  raw_body = body;
  content_type = some "application/json; charset=utf-8";
  method = "POST";
  raw_complete = true;
  pre_error = none;
  replay_operation_id = none;
}

abbrev pub at_second : ℕ → Time
at_second n = record { sec = n; micro = 0 }

abbrev pub after_ready : Db × Option IngestResult
after_ready = receive setting (ids "ing_1") (at_second 1001) (posted "ready") empty_db

abbrev pub after_broken : Db × Option IngestResult
after_broken = receive setting (ids "ing_2") (at_second 1061) (posted "broken") after_ready.0

abbrev pub or_nothing : Option IngestResult → IngestResult
or_nothing (some r) = r
or_nothing none = record {
  ingest_id = "";
  result_code = ResultCode.refused persistence_failure;
  http_status = 0;
  event_id = none;
  setup_id = none;
  duplicate = false;
  dispatch_key = none;
  transition_code = none;
}

abbrev pub accepted_result : IngestResult
accepted_result = or_nothing after_ready.1

abbrev pub state_in : Db → Option EventType
state_in db = state_of (find SetupRow.setup_id "setup_00000001" db.setups)

abbrev pub ready_row : SetupRow
ready_row = record {
  setup_id = "setup_00000001";
  symbol = "XAUUSD";
  lifecycle_state = snr_rejection_ready;
  hypothesis = some "LONG";
  path = some "SNR_REJECTION";
  latest_event_id = "evt_ready0001";
  latest_occurred_at = record { sec = 1000; tail = b'Z' ∷ [] };
  latest_evidence_fingerprint = "ready";
  version = 1;
  updated_at = record { sec = 1001; tail = b'Z' ∷ [] };
}

abbrev pub queued : OutboxRow
queued = record {
  outbox_id = "ing_1";
  dispatch_key = "ready";
  event_id = "evt_ready0001";
  setup_id = "setup_00000001";
  event = ready_event;
  status = OutboxStatus.pending;
  attempt_count = 0;
  available_at = record { sec = 1001; tail = b'Z' ∷ [] };
  claimed_at = none;
  claimed_by = none;
  delivered_at = none;
  release_authorized = true;
  created_at = record { sec = 1001; tail = b'Z' ∷ [] };
  updated_at = record { sec = 1001; tail = b'Z' ∷ [] };
}

abbrev pub taken : OutboxRow
taken = claimed_row (iso (at_second 1002)) "worker_1" queued

abbrev pub after_claim : Db
after_claim = (claim_outbox (at_second 1002) "worker_1" after_ready.0).1

abbrev pub after_delivery : Db
after_delivery = (deliver_outbox (at_second 1003) "ing_1" "worker_1" after_claim).1

abbrev pub after_retry : Db
after_retry = (retry_outbox (at_second 1004) "ing_1" after_delivery).1

abbrev pub after_failure : Db
after_failure =
    change "ing_1" (failed_row failed (iso (at_second 1033)) (iso (at_second 1003)))
      (attempt "ing_1" (iso (at_second 1003)) (some "worker_1") (gave_up failed)) after_claim
