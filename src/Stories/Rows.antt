-- ===== src/Stories/Rows.antt =====
-- The rows of the analysis database (project_a_analysis/schema.py), the values that the store takes,
-- and its transactions. A column that a CHECK holds at one value is left out.
use trading_ai_pipeline.Base.{ℕ, ◌+◌, ◌*◌, ◌/◌, String, Bool, true, false, List, Option}
use trading_ai_pipeline.Base.Text.{Text}
use trading_ai_pipeline.Output.Stamp.{Time}

-- `utc_z` renders whole milliseconds at a fixed width, so the order of the texts is the order of the
-- milliseconds since 0001-01-01T00:00:00Z, which stand for the text.
abbrev pub Millis : Type 0
Millis = ℕ

unfoldable pub utc_z : Time → Millis
utc_z t = t.sec * 1000 + t.micro / 1000

-- A JSON document of which the store reads nothing, as its canonical text.
abbrev pub Document : Type 0
Document = String

pub data Stage : Type 0 where
  liq_baseline e1_delta : Stage

pub data CaptureScope : Type 0 where
  full_baseline bounded_delta : CaptureScope

pub data JobStatus : Type 0 where
  pending_capture captured claimed completed technical_failure : JobStatus

pub data Decision : Type 0 where
  entered skipped : Decision

pub data StoryStatus : Type 0 where
  active closed : StoryStatus

pub data Outcome : Type 0 where
  requested validated failed : Outcome

-- A value of a flat JSON document, or one part of `_digest`.
pub data Value : Type 0 where
  null : Value
  str : String → Value
  chars : Text → Value
  num : ℕ → Value
  at : Millis → Value

pub record Entry : Type 0 where
  pub name : String
  pub value : Value

-- One item of `structured_reads` or of `screenshot_requests`.
pub record RequestItem : Type 0 where
  pub request_id : Option String
  pub required : Bool
  pub item : Document

pub record EvidenceRequest : Type 0 where
  pub structured_reads : List RequestItem
  pub screenshot_requests : List RequestItem
  pub source_identities : Document

-- `request_context["capture"]`.
pub record CaptureRequest : Type 0 where
  pub scope : CaptureScope
  pub accepted_request : EvidenceRequest
  pub liquidity_event_facts : List Entry

pub record StoryRow : Type 0 where
  pub story_id : String
  pub liquidity_event_id : String
  pub created_at : Millis

pub record StateRow : Type 0 where
  pub story_id : String
  pub analysis_id : Option String
  pub status : StoryStatus
  pub e1_count : ℕ
  pub big_picture : Document
  pub liquidity_baseline_analysis_id : Option String
  pub latest_analysis_id : Option String
  pub latest_grade : Option Document
  pub decision : Option Decision
  pub recorded_at : Millis

-- One entry of `prior_analysis_summaries`.
pub record Summary : Type 0 where
  pub analysis_id : String
  pub parent_analysis_id : Option String
  pub stage : Stage
  pub e1_count : ℕ
  pub completed_at : Millis
  pub grade : Document

pub record StoryMemory : Type 0 where
  pub story : Option StoryRow
  pub latest_materialised_state : Option StateRow
  pub prior_analysis_summaries : List Summary

pub record JobRow : Type 0 where
  pub job_id : String
  pub analysis_id : String
  pub story_id : String
  pub canonical_event_id : String
  pub parent_analysis_id : Option String
  pub stage : Stage
  pub e1_count : ℕ
  pub requested_at : Millis
  pub capture_scope : CaptureScope
  pub capture : CaptureRequest
  pub story_memory : StoryMemory

pub record StatusRow : Type 0 where
  pub job_id : String
  pub status : JobStatus
  pub recorded_at : Millis
  pub worker_id : Option Text
  pub lease_expires_at : Option Millis
  pub failure_code : Option String
  pub detail : Option Text

-- One image of a capture. The size is the file's.
pub record Image : Type 0 where
  pub evidence_id : String
  pub media_type : String
  pub sha256 : String
  pub size : ℕ

-- CapturedEvidence: the keys of the manifest that the store compares, the structured evidence with the
-- length of its canonical JSON, and the images.
pub record Evidence : Type 0 where
  pub job_id : String
  pub stage : String
  pub capture_scope : String
  pub source_event_id : String
  pub capture_request_sha256 : String
  pub captured_at : String
  pub structured_evidence : Document
  pub structured_bytes : ℕ
  pub images : List Image

pub record CaptureRow : Type 0 where
  pub capture_id : String
  pub job_id : String
  pub completed_at : Millis
  pub manifest_sha256 : String
  pub evidence : Evidence

pub record AttemptRow : Type 0 where
  pub attempt_id : String
  pub job_id : String
  pub idempotency_key : String
  pub client_request_id : String
  pub provider_response_id : Option String
  pub model : String
  pub started_at : Millis
  pub ended_at : Option Millis
  pub outcome : Outcome
  pub failure_code : Option String
  pub request_manifest_sha256 : String

pub record ResultRow : Type 0 where
  pub analysis_id : String
  pub story_id : String
  pub job_id : String
  pub parent_analysis_id : Option String
  pub completed_at : Millis
  pub grade : Document
  pub evidence_manifest_sha256 : String
  pub client_request_id : String
  pub provider_response_id : String
  pub model : String

pub record OrphanRow : Type 0 where
  pub canonical_event_id : String
  pub recorded_at : Millis

-- What `_audit` hashes.
pub record Envelope : Type 0 where
  pub recorded_at : Millis
  pub story_id : Option String
  pub job_id : Option String
  pub action : String
  pub document : List Entry
  pub previous_hash : String

pub record AuditRow : Type 0 where
  pub envelope : Envelope
  pub record_hash : String

pub record HealthRow : Type 0 where
  pub worker_id : Text
  pub provider_enabled : Bool
  pub last_heartbeat_at : Millis
  pub last_error_code : Option String

-- A row of the ingest's table `project_a_producer_events`, which the store reads.
pub record ProducerEvent : Type 0 where
  pub canonical_event_id : String
  pub source_bar_time : Text

-- Each table has its newest row first, so the row of the greatest id is the first that fits.
pub record Db : Type 0 where
  pub producer_events : List ProducerEvent
  pub stories : List StoryRow
  pub jobs : List JobRow
  pub statuses : List StatusRow
  pub captures : List CaptureRow
  pub attempts : List AttemptRow
  pub results : List ResultRow
  pub states : List StateRow
  pub orphans : List OrphanRow
  pub audit : List AuditRow
  pub health : List HealthRow

-- hashlib.sha256 over the canonical JSON of a document: `_sha`, and `_digest` without its prefix.
pub record Hashes : Type 0 where
  pub digest : List Value → String
  pub envelope : Envelope → String
  pub capture_request : CaptureRequest → String
  pub evidence : Evidence → String

-- The errors that the store raises, and those of SQLite and of Python that it lets through.
pub data StoreError : Type 0 where
  lease_out_of_range attempts_out_of_range limit_out_of_range job_missing story_missing : StoreError
  lease_mismatch capture_invalid capture_binding capture_results capture_hash : StoreError
  capture_budget capture_count capture_absent baseline_missing delta_reads delta_screenshots :
      StoreError
  event_facts_missing retry_conflict grade_invalid grade_identity grade_band grade_unsafe :
      StoreError
  attempt_missing monotonicity decision_invalid decision_conflict : StoreError
  integrity_error type_error date_overflow : StoreError

pub data Result {ℓ} (A : Type ℓ) : Type ℓ where
  ok : A → Result A
  err : StoreError → Result A

-- `with self.database.transaction()`: an error rolls the transaction back.
abbrev pub Transaction : Type 0 → Type 0
Transaction A = Db → Result (A × Db)

infixl 5 ◌>>=◌ ◌>>◌
unfoldable pub ◌>>=◌ : {A B : Type 0} → Transaction A → (A → Transaction B) → Transaction B
◌>>=◌ m f db = elim (m db) [ ok (a, db') ↦ f a db' | err e ↦ err e ]

unfoldable pub ◌>>◌ : {B : Type 0} → Transaction (Unit {0}) → Transaction B → Transaction B
m >> k = m >>= λ _. k

unfoldable pub pure : {A : Type 0} → A → Transaction A
pure a db = ok (a, db)

unfoldable pub fail : {A : Type 0} → StoreError → Transaction A
fail e db = err e

unfoldable pub read : {A : Type 0} → (Db → A) → Transaction A
read f db = ok (f db, db)

unfoldable pub require : Bool → StoreError → Transaction (Unit {0})
require true e = pure tt
require false e = fail e

-- A value that may be absent, or the error that its absence raises.
unfoldable pub require_some : {A : Type 0} → Option A → StoreError → Transaction A
require_some Option.none e = fail e
require_some (Option.some a) e = pure a
