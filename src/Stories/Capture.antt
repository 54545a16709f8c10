-- ===== src/Stories/Capture.antt =====
-- The capture of evidence: pending_capture_jobs, claim_capture_job, capture_failure, record_capture.
use trading_ai_pipeline.Base.{
  ℕ, ◌+◌, ◌-◌, ◌*◌, min, String, Bool, true, false, not, ◌&&◌, ◌==◌, leb, List, [], ◌∷◌, ◌++◌,
  Option, none, some, select, length, str_eq, if◌then◌else◌,
}
use Prim.Native.Nat.{◌^◌}
use trading_ai_pipeline.Base.Table.{find}
use trading_ai_pipeline.Base.Text.{Text, codes, text_eq, lower}
use trading_ai_pipeline.Output.Stamp.{Time, plus_seconds}
use trading_ai_pipeline.Stories.Rows.{
  Millis, utc_z, Stage, JobStatus, Value, RequestItem, CaptureRequest, Evidence, Image, JobRow,
  StatusRow, Db, Hashes, Transaction, ◌>>=◌, ◌>>◌, pure, fail, read, require, require_some,
  lease_out_of_range, attempts_out_of_range, job_missing, lease_mismatch, capture_invalid,
  capture_binding, capture_results, capture_hash, capture_budget, capture_count, type_error,
  date_overflow,
}
use trading_ai_pipeline.Stories.Tables.{
  insert_status, insert_capture, latest_status, is_closed, first_job, job_before,
}
use trading_ai_pipeline.Stories.Audit.{record_audit}
use trading_ai_pipeline.Stories.Enqueue.{
  digest, entry, is_baseline, stage_name, scope_name, pending_row,
}

abbrev pub is_prefix : Text → Text → Bool
is_prefix [] t = true
is_prefix (a ∷ s) [] = false
is_prefix (a ∷ s) (b ∷ t) = (a == b) && is_prefix s t

-- worker_id LIKE 'capture:%', which ignores the case of ASCII letters. NULL is like nothing.
unfoldable pub like_capture : Option Text → Bool
like_capture none = false
like_capture (some w) = is_prefix (codes "capture:") (lower w)

-- f"capture:{worker_id}:{lease_token}"
unfoldable pub capture_owner : Text → Text → Text
capture_owner worker token = codes "capture:" ++ (worker ++ (codes ":" ++ token))

abbrev pub is_pending : JobStatus → Bool
is_pending JobStatus.pending_capture = true
is_pending _ = false

abbrev pub is_claimed : JobStatus → Bool
is_claimed JobStatus.claimed = true
is_claimed _ = false

-- s.lease_expires_at<=?, which NULL does not meet.
abbrev pub lease_reached : Millis → Option Millis → Bool
lease_reached at none = false
lease_reached at (some lease) = leb lease at

abbrev pub lease_free : Millis → Option Millis → Bool
lease_free at none = true
lease_free at (some lease) = leb lease at

unfoldable pub awaits_capture : Millis → Option StatusRow → Bool
awaits_capture at none = false
awaits_capture at (some s) = is_pending s.status && lease_free at s.lease_expires_at

unfoldable pub capture_expired : Millis → Option StatusRow → Bool
capture_expired at none = false
capture_expired at (some s) =
    is_claimed s.status && like_capture s.worker_id && lease_reached at s.lease_expires_at

unfoldable pub can_capture : Millis → Db → JobRow → Bool
can_capture at db j = awaits_capture at (latest_status j.job_id db) && not (is_closed j.story_id db)

unfoldable pub insert_ordered : JobRow → List JobRow → List JobRow
insert_ordered j [] = j ∷ []
insert_ordered j (k ∷ ks) =
    let rest = insert_ordered j ks in if job_before k j then k ∷ rest else j ∷ (k ∷ ks)

unfoldable pub order_jobs : List JobRow → List JobRow
order_jobs [] = []
order_jobs (j ∷ js) = insert_ordered j (order_jobs js)

unfoldable pub pending_capture_jobs : Time → Db → List JobRow
pending_capture_jobs at db = order_jobs (select (can_capture (utc_z at) db) db.jobs)

-- utc_z(at + timedelta(seconds=n))
unfoldable pub after : Time → ℕ → Transaction Millis
after at n = require_some (plus_seconds at n) date_overflow >>= λ t. pure (utc_z t)

abbrev pub expired_row : String → Millis → Text → Millis → StatusRow
expired_row job stamp worker retry_at = record {
  job_id = job;
  status = JobStatus.pending_capture;
  recorded_at = stamp;
  worker_id = some worker;
  lease_expires_at = some retry_at;
  failure_code = some "CAPTURE_LEASE_EXPIRED";
  detail = some (codes "capture owner exited before completing its lease");
}

abbrev pub claimed_row : String → Millis → Text → Millis → StatusRow
claimed_row job stamp owner expiry = record {
  job_id = job;
  status = JobStatus.claimed;
  recorded_at = stamp;
  worker_id = some owner;
  lease_expires_at = some expiry;
  failure_code = none;
  detail = none;
}

-- A claimed job with its lease token.
pub record CaptureClaim : Type 0 where
  pub job : JobRow
  pub capture_lease_token : Text

unfoldable pub expire_capture : Hashes → Text → Time → JobRow → Transaction (Option CaptureClaim)
expire_capture h worker at j = do
  retry_at ← after at 30
  insert_status (expired_row j.job_id (utc_z at) worker retry_at)
  record_audit h (utc_z at) "MCP_CAPTURE_LEASE_EXPIRED" none (some j.job_id)
      (entry "retry_at" (Value.at retry_at) ∷ [])
  pure none

unfoldable pub take_capture :
    Hashes → Text → Text → Time → ℕ → Option JobRow → Transaction (Option CaptureClaim)
take_capture h worker token at lease_seconds none = pure none
take_capture h worker token at lease_seconds (some j) = do
  expiry ← after at lease_seconds
  insert_status (claimed_row j.job_id (utc_z at) (capture_owner worker token) expiry)
  record_audit h (utc_z at) "MCP_CAPTURE_CLAIMED" none (some j.job_id)
      (entry "lease_expires_at" (Value.at expiry) ∷ [])
  pure (some record { job = j; capture_lease_token = token })

unfoldable pub expire_or_take :
    Hashes → Text → Text → Time → ℕ → Option JobRow → Transaction (Option CaptureClaim)
expire_or_take h worker token at lease_seconds (some j) = expire_capture h worker at j
expire_or_take h worker token at lease_seconds none =
    read (λ db. first_job (can_capture (utc_z at) db) db)
    >>= take_capture h worker token at lease_seconds

-- The token is the SHA-256 of 32 bytes of os.urandom.
unfoldable pub claim_capture_job :
    Hashes → Text → Text → Time → ℕ → Transaction (Option CaptureClaim)
claim_capture_job h worker token at lease_seconds = do
  require (leb 10 lease_seconds && leb lease_seconds 300) lease_out_of_range
  expired ← read (λ db. first_job (λ j. capture_expired (utc_z at) (latest_status j.job_id db)) db)
  expire_or_take h worker token at lease_seconds expired

-- The guard of a lease: its owner's, and not run out.
unfoldable pub check_expiry : Millis → Option Millis → Transaction (Unit {0})
check_expiry stamp none = fail type_error
check_expiry stamp (some lease) = require (leb stamp lease) lease_mismatch

abbrev pub is_owner : Text → Option Text → Bool
is_owner owner none = false
is_owner owner (some w) = text_eq w owner

unfoldable pub check_lease : Text → Millis → Option StatusRow → Transaction (Unit {0})
check_lease owner stamp none = fail job_missing
check_lease owner stamp (some s) =
    require (is_claimed s.status && is_owner owner s.worker_id) lease_mismatch
    >> check_expiry stamp s.lease_expires_at

abbrev pub is_failed_capture : String → StatusRow → Bool
is_failed_capture job s =
    str_eq s.job_id job
    && is_pending s.status
    && (elim s.failure_code [ none ↦ false | some _ ↦ true ])

-- SELECT COUNT(*) … WHERE job_id=? AND status='PENDING_CAPTURE' AND failure_code IS NOT NULL
unfoldable pub failed_captures : String → Db → ℕ
failed_captures job db = length (select (is_failed_capture job) db.statuses)

-- min(30 * (2 ** (attempts - 1)), 900)
unfoldable pub retry_delay : ℕ → ℕ
retry_delay attempts = min (30 * 2 ^ (attempts - 1)) 900

abbrev pub failed_row :
    String → JobStatus → Millis → Text → Option Millis → String → Text → StatusRow
failed_row job status stamp worker retry_at code detail = record {
  job_id = job;
  status = status;
  recorded_at = stamp;
  worker_id = some worker;
  lease_expires_at = retry_at;
  failure_code = some code;
  detail = some detail;
}

pub record CaptureFailure : Type 0 where
  pub status : JobStatus
  pub failure_code : String

-- text[:n]
unfoldable pub bounded : ℕ → Text → Text
bounded n [] = []
bounded n (c ∷ s) = if leb n 0 then [] else c ∷ bounded (n - 1) s

unfoldable pub exhaust_capture :
    Hashes → String → Time → Text → String → Text → ℕ → Transaction CaptureFailure
exhaust_capture h job at worker code detail attempts = do
  insert_status (
      failed_row job JobStatus.technical_failure (utc_z at) worker none "CAPTURE_RETRY_EXHAUSTED"
        detail)
  record_audit h (utc_z at) "MCP_CAPTURE_RETRY_EXHAUSTED" none (some job)
      (entry "attempt" (Value.num attempts) ∷ entry "failure_code" (Value.str code) ∷ [])
  pure record { status = JobStatus.technical_failure; failure_code = "CAPTURE_RETRY_EXHAUSTED" }

unfoldable pub retry_capture :
    Hashes → String → Time → Text → String → Text → ℕ → Transaction CaptureFailure
retry_capture h job at worker code detail attempts = do
  retry_at ← after at (retry_delay attempts)
  insert_status
      (failed_row job JobStatus.pending_capture (utc_z at) worker (some retry_at) code detail)
  record_audit h (utc_z at) "MCP_CAPTURE_RETRY_SCHEDULED" none (some job) (
      entry "attempt" (Value.num attempts)
      ∷ entry "failure_code" (Value.str code)
      ∷ entry "retry_at" (Value.at retry_at)
      ∷ [])
  pure record { status = JobStatus.pending_capture; failure_code = code }

-- The failure of the given number, counted from 1.
unfoldable pub settle_failure :
    Hashes → String → Time → Text → String → Text → ℕ → ℕ → Transaction CaptureFailure
settle_failure h job at worker code detail maximum_attempts attempts =
    if leb maximum_attempts attempts
    then exhaust_capture h job at worker code (bounded 400 detail) attempts
    else retry_capture h job at worker code (bounded 400 detail) attempts

unfoldable pub capture_failure :
    Hashes → String → Time → Text → Text → String → Text → ℕ → Transaction CaptureFailure
capture_failure h job at worker token code detail maximum_attempts = do
  require (leb 1 maximum_attempts && leb maximum_attempts 10) attempts_out_of_range
  latest ← read (latest_status job)
  check_lease (capture_owner worker token) (utc_z at) latest
  failed ← read (failed_captures job)
  settle_failure h job at worker code detail maximum_attempts (failed + 1)

-- What CapturedEvidence.validate and _validate_capture_results decide on the files and the results.
pub record Checks : Type 0 where
  pub evidence_valid : Evidence → Bool
  pub results_valid : Evidence → CaptureRequest → Time → Bool

-- 5 images of 20,000,000 bytes for the baseline, 2 of 8,000,000 for a delta.
abbrev pub maximum_images : Stage → ℕ
maximum_images s = if is_baseline s then 5 else 2

abbrev pub maximum_image_bytes : Stage → ℕ
maximum_image_bytes s = if is_baseline s then 20000000 else 8000000

unfoldable pub total_bytes : List Image → ℕ
total_bytes [] = 0
total_bytes (i ∷ images) = i.size + total_bytes images

abbrev pub binds_job : Evidence → JobRow → Bool
binds_job e j =
    str_eq e.job_id j.job_id
    && str_eq e.stage (stage_name j.stage)
    && str_eq e.capture_scope (scope_name j.capture_scope)
    && str_eq e.source_event_id j.canonical_event_id

unfoldable pub within_budget : Evidence → JobRow → Bool
within_budget e j =
    leb (length e.images) (maximum_images j.stage)
    && leb (total_bytes e.images) (maximum_image_bytes j.stage)

-- minimum_images <= len(images) <= len(screenshot_requests)
unfoldable pub counts_match : Evidence → List RequestItem → Bool
counts_match e requests =
    leb (length (select RequestItem.required requests)) (length e.images)
    && leb (length e.images) (length requests)

unfoldable pub check_capture : Hashes → Checks → JobRow → Evidence → Time → Transaction (Unit {0})
check_capture h checks j e at = do
  require (binds_job e j) capture_binding
  require (checks.results_valid e j.capture at) capture_results
  require (str_eq e.capture_request_sha256 (h.capture_request j.capture)) capture_hash
  require (within_budget e j) capture_budget
  require (counts_match e j.capture.accepted_request.screenshot_requests) capture_count
  require (leb e.structured_bytes 262144) capture_budget

abbrev pub captured_row : String → Millis → StatusRow
captured_row job stamp = record (pending_row job stamp) { status = JobStatus.captured }

unfoldable pub store_capture : Hashes → String → Evidence → Millis → Transaction (Unit {0})
store_capture h job e stamp = do
  let manifest = h.evidence e
  let capture = digest h "capture_" (Value.str job ∷ Value.str manifest ∷ [])
  insert_capture record {
    capture_id = capture;
    job_id = job;
    completed_at = stamp;
    manifest_sha256 = manifest;
    evidence = e;
  }
  insert_status (captured_row job stamp)
  record_audit h stamp "MCP_CAPTURE_COMPLETED" none (some job) (
      entry "capture_id" (Value.str capture)
      ∷ entry "manifest_sha256" (Value.str manifest)
      ∷ entry "image_count" (Value.num (length e.images))
      ∷ [])

unfoldable pub record_capture :
    Hashes → Checks → String → Evidence → Time → Text → Text → Transaction (Unit {0})
record_capture h checks job e at worker token = do
  require (checks.evidence_valid e) capture_invalid
  found ← read (λ db. find JobRow.job_id job db.jobs)
  j ← require_some found job_missing
  check_capture h checks j e at
  latest ← read (latest_status job)
  check_lease (capture_owner worker token) (utc_z at) latest
  store_capture h job e (utc_z at)
