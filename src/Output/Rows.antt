-- ===== src/Output/Rows.antt =====
-- The rows of the outbox database (output/project_a/store.py, MIGRATION_SQL) and the value types of
-- output/project_a/models.py.
use Prim.Native.String.{◌++◌}
use trading_ai_pipeline.Base.{ℕ, String, Bool, true, false, List, [], ◌∷◌, Option}
use trading_ai_pipeline.Base.Text.{Text}
use trading_ai_pipeline.Output.Stamp.{Time, Stamp}

pub data ResultStatus : Type 0 where
  success already_completed retryable_failure terminal_failure blocked_safety : ResultStatus
  dry_run_success uncertain : ResultStatus

-- The texts that `renderer_deliveries.status` takes.
pub data DeliveryStatus : Type 0 where
  pending claimed succeeded dry_run_succeeded retryable_failed terminal_failed : DeliveryStatus
  blocked uncertain : DeliveryStatus

-- COMPLETED_DELIVERY_STATUSES
abbrev pub is_completed : DeliveryStatus → Bool
is_completed succeeded = true
is_completed dry_run_succeeded = true
is_completed _ = false

abbrev pub is_claimed : DeliveryStatus → Bool
is_claimed claimed = true
is_claimed _ = false

-- The texts that `renderer_attempts.status` takes.
pub data AttemptStatus : Type 0 where
  claimed abandoned : AttemptStatus
  reported : ResultStatus → AttemptStatus

-- A JSON document, as its canonical text.
abbrev pub Document : Type 0
Document = String

-- The fields of a canonical Thesis that the store reads, and the whole document.
pub record ThesisDocument : Type 0 where
  pub setup_id : String
  pub thesis_id : String
  pub created_at : String
  pub canonical : Document

-- `timestamp` is always the rendering of the `now` that `models.result` is given.
pub record RendererResult : Type 0 where
  pub setup_id : String
  pub thesis_id : String
  pub delivery_id : String
  pub attempt_id : String
  pub status : ResultStatus
  pub timestamp : Time
  pub dry_run : Bool
  pub external_reference : Option String
  pub error_code : Option String
  pub detail : Option Document

pub record ThesisRow : Type 0 where
  pub setup_id : String
  pub thesis_id : String
  pub thesis_hash : String
  pub request_hash : String
  pub verdict_hash : String
  pub request : Document
  pub verdict : Document
  pub thesis : ThesisDocument
  pub audit_ref : String
  pub audit_record_hash : String
  pub audit_envelope : Document
  pub completed_result : Document
  pub finalized_at : Stamp

-- The columns `shadow` and `dry_run` are left out: a CHECK holds them at 1.
pub record Delivery : Type 0 where
  pub delivery_id : String
  pub thesis_id : String
  pub setup_id : String
  pub renderer_type : String
  pub thesis_hash : String
  pub idempotency_key : String
  pub status : DeliveryStatus
  pub attempt_count : ℕ
  pub first_attempt_at : Option Stamp
  pub latest_attempt_at : Option Stamp
  pub next_retry_at : Option Stamp
  pub last_error_code : Option String
  pub external_reference : Option String
  pub completion_at : Option Stamp
  pub replay_parent_delivery_id : Option String
  pub claim_owner : Option String
  pub claim_token : Option String
  pub claimed_at : Option Stamp
  pub result : Option RendererResult

pub record Attempt : Type 0 where
  pub attempt_id : String
  pub delivery_id : String
  pub attempt_number : ℕ
  pub started_at : Stamp
  pub finished_at : Option Stamp
  pub status : AttemptStatus
  pub error_code : Option String
  pub external_reference : Option String
  pub result : Option RendererResult

-- The `detail_json` of an audited operation.
pub data Detail : Type 0 where
  reset_from : DeliveryStatus → ℕ → Detail
  reconciled : Bool → Option String → Detail
  given : Document → Detail

pub record Operation : Type 0 where
  pub operation_id : String
  pub operation_type : Text
  pub delivery_id : Option String
  pub actor : Text
  pub reason : Text
  pub created_at : Stamp
  pub detail : Detail

pub record OutcomeRow : Type 0 where
  pub event_id : String
  pub event_hash : String
  pub setup_id : String
  pub thesis_id : String
  pub recorded_at : String
  pub final_status : String
  pub payload : Document

pub record Db : Type 0 where
  pub theses : List ThesisRow
  pub deliveries : List Delivery
  pub attempts : List Attempt
  pub operations : List Operation
  pub outcomes : List OutcomeRow

abbrev pub empty_db : Db
empty_db = record { theses = []; deliveries = []; attempts = []; operations = []; outcomes = [] }

-- The codes of `Session5Error` and `ConflictError`, with two errors that Python raises:
-- sqlite3.IntegrityError for a broken key, and OverflowError for a date out of range.
pub data StoreError : Type 0 where
  canonical_conflict delivery_missing claim_lost audit_required : StoreError
  completed_reset_forbidden external_reference_required not_uncertain : StoreError
  integrity_error date_overflow : StoreError
  timezone_not_utc timestamp_invalid renderer_not_registered : StoreError
  reconciliation_conflict : String → StoreError
  outcome_type outcome_fields_missing outcome_fields_unknown outcome_identity_type : StoreError
  outcome_field_type outcome_numeric_invalid outcome_spread_negative outcome_status : StoreError
  outcome_chronology outcome_identity_mismatch outcome_conflict outcome_out_of_order : StoreError

pub data Result {ℓ} (A : Type ℓ) : Type ℓ where
  ok : A → Result A
  err : StoreError → Result A

-- A transaction: an error closes the connection without a commit, which rolls it back.
abbrev pub Transaction : Type 0 → Type 0
Transaction A = Db → Result (A × Db)

-- One argument of `stable_id`, before it is rendered as text.
pub data Part : Type 0 where
  text : String → Part
  chars : Text → Part
  num : ℕ → Part
  at : Stamp → Part

-- hashlib.sha256: the first n hexadecimal digits of the digest of the parts, joined by U+001F.
pub record Digest : Type 0 where
  pub hex : List Part → ℕ → String

unfoldable pub stable_id : Digest → String → List Part → ℕ → String
stable_id d prefix parts length = prefix ++ ("_" ++ d.hex parts length)

unfoldable pub document_hash : Digest → Document → String
document_hash d doc = d.hex (text doc ∷ []) 64
