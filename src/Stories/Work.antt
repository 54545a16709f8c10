-- ===== src/Stories/Work.antt =====
-- The analysis of a captured job: claim_next, load_job_bundle, begin_provider_attempt, complete and
-- technical_failure.
use Prim.Native.String.{◌++◌}
use trading_ai_pipeline.Base.{
  ℕ, String, Bool, true, false, not, ◌&&◌, ◌||◌, ◌==◌, ltb, [], ◌∷◌, Option, none, some, any,
  select, str_eq, if◌then◌else◌,
}
use trading_ai_pipeline.Base.Table.{find}
use trading_ai_pipeline.Base.Text.{Text, codes}
use trading_ai_pipeline.Output.Stamp.{Time}
use trading_ai_pipeline.Stories.Rows.{
  Millis, utc_z, JobStatus, Outcome, Value, Evidence, JobRow, StatusRow, CaptureRow, AttemptRow,
  StoryMemory, Db, Hashes, Transaction, ◌>>=◌, ◌>>◌, pure, read, require, require_some,
  capture_absent, capture_invalid, retry_conflict,
}
use trading_ai_pipeline.Base.Search.{first_by}
use trading_ai_pipeline.Stories.Tables.{
  insert_status, insert_attempt, insert_attempt_or_ignore, latest_status, is_closed, is_completed,
  same_outcome, first_job,
}
use trading_ai_pipeline.Stories.Audit.{record_audit}
use trading_ai_pipeline.Stories.Memory.{bounded_story_context}
use trading_ai_pipeline.Stories.Enqueue.{digest, entry, is_baseline}
use trading_ai_pipeline.Stories.Capture.{
  Checks, after, is_claimed, like_capture, claimed_row, bounded,
}

abbrev pub is_captured : JobStatus → Bool
is_captured JobStatus.captured = true
is_captured _ = false

-- s.lease_expires_at<?, which NULL does not meet.
abbrev pub lease_passed : Millis → Option Millis → Bool
lease_passed at none = false
lease_passed at (some lease) = ltb lease at

-- worker_id NOT LIKE 'capture:%', which NULL does not meet.
abbrev pub not_capture : Option Text → Bool
not_capture none = false
not_capture (some w) = not (like_capture (some w))

-- Captured, or claimed by a worker that is not a capture and whose lease has run out.
unfoldable pub awaits_work : Millis → Option StatusRow → Bool
awaits_work at none = false
awaits_work at (some s) =
    (is_captured s.status || (is_claimed s.status && lease_passed at s.lease_expires_at))
    && (not (is_claimed s.status) || not_capture s.worker_id)

unfoldable pub is_prior : JobRow → JobRow → Bool
is_prior j p =
    str_eq p.story_id j.story_id
    && (ltb p.e1_count j.e1_count
        || (p.e1_count == j.e1_count && ltb p.requested_at j.requested_at))

abbrev pub is_unfinished : Option StatusRow → Bool
is_unfinished none = false
is_unfinished (some s) = not (is_completed s.status)

-- EXISTS (SELECT 1 FROM project_a_analysis_jobs prior …)
unfoldable pub has_unfinished_prior : Db → JobRow → Bool
has_unfinished_prior db j =
    any (λ p. is_prior j p && is_unfinished (latest_status p.job_id db)) db.jobs

-- AND j.job_id=?, where an id is given that is not empty.
abbrev pub is_wanted : Option String → JobRow → Bool
is_wanted none j = true
is_wanted (some id) j = str_eq id "" || str_eq j.job_id id

unfoldable pub can_work : Millis → Option String → Db → JobRow → Bool
can_work at wanted db j =
    awaits_work at (latest_status j.job_id db)
    && is_wanted wanted j
    && not (is_closed j.story_id db)
    && not (has_unfinished_prior db j)

unfoldable pub take_job :
    Hashes → Text → Millis → Millis → Option JobRow → Transaction (Option JobRow)
take_job h worker stamp expiry none = pure none
take_job h worker stamp expiry (some j) = do
  insert_status (claimed_row j.job_id stamp worker expiry)
  record_audit h stamp "JOB_CLAIMED" (some j.story_id) (some j.job_id)
      (entry "worker_id" (Value.chars worker) ∷ entry "lease_expires_at" (Value.at expiry) ∷ [])
  pure (some j)

unfoldable pub claim_next : Hashes → Text → Time → ℕ → Option String → Transaction (Option JobRow)
claim_next h worker at lease_seconds wanted = do
  expiry ← after at lease_seconds
  found ← read (λ db. first_job (can_work (utc_z at) wanted db) db)
  take_job h worker (utc_z at) expiry found

-- The document of load_job_bundle: the job, its story's memory, and the hash of its capture.
pub record Bundle : Type 0 where
  pub job : JobRow
  pub story_memory : StoryMemory
  pub capture_manifest_sha256 : String
  pub evidence : Evidence

unfoldable pub bundle_of : Db → JobRow → CaptureRow → Bundle
bundle_of db j c = record {
  job = j;
  story_memory =
      if is_baseline j.stage then j.story_memory else bounded_story_context j.story_id db;
  capture_manifest_sha256 = c.manifest_sha256;
  evidence = c.evidence;
}

unfoldable pub load_job_bundle : Checks → String → Transaction Bundle
load_job_bundle checks id = do
  job ← read (λ db. find JobRow.job_id id db.jobs)
  capture ← read (λ db. find CaptureRow.job_id id db.captures)
  j ← require_some job capture_absent
  c ← require_some capture capture_absent
  require (checks.evidence_valid c.evidence) capture_invalid
  read (λ db. bundle_of db j c)

unfoldable pub idempotency_key : JobRow → String
idempotency_key j = "project-a-" ++ j.analysis_id

abbrev pub is_requested_for : JobRow → AttemptRow → Bool
is_requested_for j a = str_eq a.job_id j.job_id && same_outcome a.outcome Outcome.requested

-- WHERE job_id=? AND idempotency_key=? AND outcome='REQUESTED'
unfoldable pub requested_attempt : JobRow → Db → Option AttemptRow
requested_attempt j db =
    first_by (λ a b. false)
      (select (λ a. is_requested_for j a && str_eq a.idempotency_key (idempotency_key j))
        db.attempts)

abbrev pub same_request : AttemptRow → String → String → String → Bool
same_request a model manifest client =
    str_eq a.model model
    && str_eq a.request_manifest_sha256 manifest
    && str_eq a.client_request_id client

unfoldable pub start_attempt :
    Hashes → JobRow → String → String → String → Millis → Option AttemptRow → Transaction String
start_attempt h j model manifest client stamp (some a) = do
  require (same_request a model manifest client) retry_conflict
  pure a.attempt_id
start_attempt h j model manifest client stamp none = do
  let attempt =
      digest h "provider_attempt_" (Value.str j.job_id ∷ Value.str (idempotency_key j) ∷ [])
  insert_attempt record {
    attempt_id = attempt;
    job_id = j.job_id;
    idempotency_key = idempotency_key j;
    client_request_id = client;
    provider_response_id = none;
    model = model;
    started_at = stamp;
    ended_at = none;
    outcome = Outcome.requested;
    failure_code = none;
    request_manifest_sha256 = manifest;
  }
  record_audit h stamp "PROVIDER_REQUEST_DURABLY_STARTED" (some j.story_id) (some j.job_id) (
      entry "attempt_id" (Value.str attempt)
      ∷ entry "client_request_id" (Value.str client)
      ∷ entry "idempotency_key" (Value.str (idempotency_key j))
      ∷ entry "model" (Value.str model)
      ∷ entry "request_manifest_sha256" (Value.str manifest)
      ∷ [])
  pure attempt

unfoldable pub begin_provider_attempt :
    Hashes → JobRow → String → String → String → Time → Transaction String
begin_provider_attempt h j model manifest client at =
    read (requested_attempt j) >>= start_attempt h j model manifest client (utc_z at)

-- WHERE job_id=? AND outcome='REQUESTED' ORDER BY started_at DESC LIMIT 1
unfoldable pub last_request : JobRow → Db → Option AttemptRow
last_request j db =
    first_by (λ (a b : AttemptRow). ltb b.started_at a.started_at)
      (select (is_requested_for j) db.attempts)

abbrev pub worker_name : Text
worker_name = codes "PROJECT_A_ANALYSIS_WORKER"

-- `model or attempt["model"]`
abbrev pub model_or : Option String → String → String
model_or none given = given
model_or (some m) given = if str_eq m "" then given else m

abbrev pub failure_row : String → Millis → String → Text → StatusRow
failure_row job stamp code detail = record {
  job_id = job;
  status = JobStatus.technical_failure;
  recorded_at = stamp;
  worker_id = some worker_name;
  lease_expires_at = none;
  failure_code = some code;
  detail = some detail;
}

unfoldable pub fail_attempt :
    Hashes → Option AttemptRow → String → Millis → Option String → Transaction (Unit {0})
fail_attempt h none code stamp model = pure tt
fail_attempt h (some a) code stamp model = insert_attempt_or_ignore (record a {
  attempt_id = digest h "provider_failed_" (Value.str a.attempt_id ∷ Value.str code ∷ []);
  provider_response_id = none;
  model = model_or model a.model;
  ended_at = some stamp;
  outcome = Outcome.failed;
  failure_code = some code;
})

unfoldable pub technical_failure :
    Hashes → JobRow → String → Text → Time → Option String → Transaction (Unit {0})
technical_failure h j code detail at model = do
  insert_status (failure_row j.job_id (utc_z at) code (bounded 240 detail))
  last ← read (last_request j)
  fail_attempt h last code (utc_z at) model
  record_audit h (utc_z at) "TECHNICAL_FAILURE" (some j.story_id) (some j.job_id)
      (entry "code" (Value.str code) ∷ entry "detail" (Value.chars (bounded 240 detail)) ∷ [])
