-- ===== src/Ingest/Service/Rows.antt =====
-- The tables of ingest/project_a/database.py, the events and results of service.py, and the settings
-- of config.py that it reads. Numbers of a payload are whole numbers of a common unit; a document is
-- the record of the fields that the service reads, and its canonical text, its hash and its schema
-- are those of libraries and contracts. Columns that hold only a text for people or a size (detail,
-- last_error, content_type, source_metadata_json, body_bytes) are left out, and texts are not cut.
use trading_ai_pipeline.Base.{
  ℕ, ◌+◌, ◌*◌, ◌/◌, ◌==◌, String, Bool, List, [], ◌∷◌, ◌++◌, Option, is_some, if◌then◌else◌,
}
use trading_ai_pipeline.Base.Int.{ℤ}
use trading_ai_pipeline.Base.Table.{find}
use trading_ai_pipeline.Output.Stamp.{Time, Stamp, digits}
use trading_ai_pipeline.Ingest.Service.Lifecycle.{EventClass, EventType, ReasonCode}

-- `iso`: milliseconds where there is a fraction of a second.
unfoldable pub iso : Time → Stamp
unfolding digits
iso t = record {
  sec = t.sec;
  tail = if t.micro == 0 then b'Z' ∷ [] else b'.' ∷ (digits 3 (t.micro / 1000) ++ (b'Z' ∷ []));
}

abbrev pub micros : Time → ℕ
micros t = t.sec * 1000000 + t.micro

pub record ProjectAConfig : Type 0 where
  pub max_body_bytes : ℕ
  pub future_tolerance_seconds : ℕ
  pub stale_after_seconds : ℕ
  pub claim_timeout_seconds : ℕ
  pub max_outbox_attempts : ℕ
  pub enabled_symbol : String
  pub base_timeframe : String
  pub max_spread_points : ℤ

pub data Disposition : Type 0 where
  accepted rejected structural_break invalid expired duplicate : Disposition

-- A number of the payload: it is absent, it is no finite number, or it is a number.
pub data Field : Type 0 where
  absent malformed : Field
  number : ℤ → Field

pub data BarTime : Type 0 where
  missing unreadable : BarTime
  at : Stamp → BarTime

pub record Payload : Type 0 where
  pub bar_time : BarTime
  pub has_authority_field : Bool
  pub has_ambiguous_spread : Bool
  pub spread_points : Field
  pub snr_low : Field
  pub snr_high : Field
  pub canonical : String

-- `occurred` is what parse_utc reads from `occurred_at`; `renders` says that canonical_json, and the
-- encoding, of what _commit_validated hashes raise nothing.
pub record Event : Type 0 where
  pub event_id : String
  pub correlation_id : String
  pub causation_id : Option String
  pub occurred_at : Stamp
  pub occurred : Time
  pub symbol : String
  pub timeframe : String
  pub event_class : EventClass
  pub event_type : EventType
  pub setup_id : Option String
  pub hypothesis : Option String
  pub path : Option String
  pub disposition : Disposition
  pub reason_code : String
  pub payload : Payload
  pub canonical : String
  pub renders : Bool

pub data RejectCode : Type 0 where
  method_not_allowed content_type_unsupported body_too_large body_encoding_invalid : RejectCode
  malformed_json document_type schema_version_missing schema_version_unsupported : RejectCode
  structural_validation_failed semantic_validation_failed unsupported_lifecycle_v02 : RejectCode
  wrong_symbol wrong_timeframe event_type_class_mismatch bar_time_invalid : RejectCode
  client_authority_prohibited future_timestamp stale_timestamp malformed_snr : RejectCode
  spread_format_ambiguous spread_points_required spread_gate_failed : RejectCode
  analysis_ready_not_accepted event_id_conflict out_of_order_event : RejectCode
  illegal_lifecycle_transition persistence_failure outbox_unrecoverable : RejectCode
  from_ingress : String → RejectCode

-- RuntimeReject, without its text.
pub record RuntimeReject : Type 0 where
  pub code : RejectCode
  pub status : ℕ
  pub replay_eligible : Bool

pub data Status : Type 0 where
  accepted rejected recorded_rejected idempotent_duplicate duplicate_body : Status
  duplicate_evidence conflict : Status

-- What the column `error_code` of a processing row holds.
pub data Note : Type 0 where
  same_content : Note
  same_delivery : Status → Note
  disposition : String → Note
  moved : ReasonCode → Note
  refused : RejectCode → Note

pub record Receipt : Type 0 where
  pub ingest_id : String
  pub raw_body : String
  pub body_hash : String
  pub raw_complete : Bool
  pub received_at : Stamp
  pub method : String

pub record Processing : Type 0 where
  pub ingest_id : String
  pub recorded_at : Stamp
  pub status : Status
  pub event_id : Option String
  pub setup_id : Option String
  pub note : Note
  pub duplicate_of : Option String
  pub replay_operation_id : Option String

pub record EventRow : Type 0 where
  pub event_id : String
  pub ingest_id : String
  pub event : Event
  pub canonical_hash : String
  pub evidence_fingerprint : String
  pub created_at : Stamp

pub record SetupRow : Type 0 where
  pub setup_id : String
  pub symbol : String
  pub lifecycle_state : EventType
  pub hypothesis : Option String
  pub path : Option String
  pub latest_event_id : String
  pub latest_occurred_at : Stamp
  pub latest_evidence_fingerprint : String
  pub version : ℕ
  pub updated_at : Stamp

pub record HistoryRow : Type 0 where
  pub setup_id : String
  pub event_id : String
  pub previous_state : Option EventType
  pub next_state : Option EventType
  pub transition_code : ReasonCode
  pub evidence_fingerprint : String
  pub occurred_at : Stamp
  pub recorded_at : Stamp

pub data OutboxStatus : Type 0 where
  pending processing delivered failed dead_letter : OutboxStatus

pub record OutboxRow : Type 0 where
  pub outbox_id : String
  pub dispatch_key : String
  pub event_id : String
  pub setup_id : String
  pub event : Event
  pub status : OutboxStatus
  pub attempt_count : ℕ
  pub available_at : Stamp
  pub claimed_at : Option Stamp
  pub claimed_by : Option String
  pub delivered_at : Option Stamp
  pub release_authorized : Bool
  pub created_at : Stamp
  pub updated_at : Stamp

pub data AttemptOutcome : Type 0 where
  claimed delivered recovered : AttemptOutcome
  gave_up : OutboxStatus → AttemptOutcome

pub record AttemptRow : Type 0 where
  pub outbox_id : String
  pub attempted_at : Stamp
  pub worker_id : Option String
  pub outcome : AttemptOutcome

pub record DeadLetter : Type 0 where
  pub dead_letter_id : String
  pub dedupe_key : String
  pub error_code : RejectCode
  pub ingest_id : String
  pub event_id : Option String
  pub setup_id : Option String
  pub first_seen_at : Stamp
  pub latest_seen_at : Stamp
  pub occurrence_count : ℕ
  pub attempt_count : ℕ
  pub replay_eligible : Bool

-- The tables, newest row first.
pub record Db : Type 0 where
  pub receipts : List Receipt
  pub processing : List Processing
  pub events : List EventRow
  pub setups : List SetupRow
  pub history : List HistoryRow
  pub outbox : List OutboxRow
  pub attempts : List AttemptRow
  pub dead_letters : List DeadLetter

abbrev pub empty_db : Db
empty_db = record {
  receipts = [];
  processing = [];
  events = [];
  setups = [];
  history = [];
  outbox = [];
  attempts = [];
  dead_letters = [];
}

pub record Evidence : Type 0 where
  pub setup_id : Option String
  pub bar_time : Stamp
  pub event_class : EventClass
  pub event_type : EventType
  pub hypothesis : Option String
  pub path : Option String
  pub payload : String

-- SHA-256 over raw bytes and over canonical JSON.
pub record Hashes : Type 0 where
  pub body : String → String
  pub canonical : String → String
  pub evidence : Evidence → String
  pub dispatch : Option String → String → String
  pub dead_letter : RejectCode → Option String → Option String → String

-- The values that uuid.uuid4 gives to one call.
pub record Ids : Type 0 where
  pub ingest_id : String
  pub outbox_id : String
  pub dead_letter_id : String
  pub rejection_id : String

pub data ResultCode : Type 0 where
  done : Status → ResultCode
  refused : RejectCode → ResultCode

pub record IngestResult : Type 0 where
  pub ingest_id : String
  pub result_code : ResultCode
  pub http_status : ℕ
  pub event_id : Option String
  pub setup_id : Option String
  pub duplicate : Bool
  pub dispatch_key : Option String
  pub transition_code : Option Note

unfoldable pub has_receipt : String → Db → Bool
has_receipt id db = is_some (find Receipt.ingest_id id db.receipts)
