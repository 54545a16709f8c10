-- ===== src/Stories/Tests/Data.antt =====
-- Hashes, events and databases for the tests.
use Prim.Native.String.{◌++◌}
use trading_ai_pipeline.Base.{
  ℕ, ◌≡◌, refl, arith, String, Bool, true, false, List, [], ◌∷◌, Option, none, some,
}
use trading_ai_pipeline.Base.Text.{Text, codes}
use trading_ai_pipeline.Output.Stamp.{Time}
use trading_ai_pipeline.Stories.Rows.{
  Value, Entry, RequestItem, EvidenceRequest, JobRow, StatusRow, StoryRow, ProducerEvent, Db,
  Hashes, Stage, JobStatus, CaptureScope, Outcome, Result, ok, err,
}
use trading_ai_pipeline.Stories.Enqueue.{TriggerEvent, entry, fact_fields}
use trading_ai_pipeline.Stories.Capture.{Checks}
use trading_ai_pipeline.Stories.Complete.{GradeLibrary, Grade, Response}
use trading_ai_pipeline.Stories.Work.{Bundle}
use trading_ai_pipeline.Stories.Step.{Setting}

abbrev pub joined : List Value → String
joined [] = ""
joined (Value.str s ∷ parts) = s ++ joined parts
joined (_ ∷ parts) = "." ++ joined parts

abbrev pub hashes : Hashes
hashes = record {
  digest = joined;
  envelope = λ e. "h" ++ e.previous_hash;
  capture_request = λ r. "request";
  evidence = λ e. "evidence";
}

abbrev pub checks : Checks
checks = record { evidence_valid = λ e. true; results_valid = λ e r at. true }

abbrev pub library : GradeLibrary
library = record {
  validate_contract = λ g. true;
  baseline_picture = λ id g. "baseline";
  plain_picture = "plain";
  symbol_picture = "symbol";
}

abbrev pub setting : Setting
setting = record { hashes = hashes; checks = checks; library = library }

abbrev pub second : ℕ → Time
second n = record { sec = n; micro = 0 }

abbrev item : String → RequestItem
item id = record { request_id = some id; required = true; item = "{}" }

abbrev pub request : EvidenceRequest
request = record {
  structured_reads =
      item "read_9333_xau_current"
      ∷ item "read_9333_xau_closed_ohlc_5m"
      ∷ item "read_9333_xau_macd_5m"
      ∷ item "read_9333_renko_5s"
      ∷ item "read_9333_xau_5s_price_action"
      ∷ [];
  screenshot_requests = item "screenshot_9333_xau_intraday" ∷ item "screenshot_9333_renko" ∷ [];
  source_identities = "[]";
}

abbrev facts : List String → List Entry
facts [] = []
facts (f ∷ fs) = entry f (Value.str "x") ∷ facts fs

abbrev pub touch : TriggerEvent
touch = record {
  event = "LIQ_TOUCH";
  canonical_event_id = "liq";
  source_bar_time = codes "2026-01-01T00:00:00Z";
  fields = facts fact_fields;
}

abbrev pub renko : String → String → TriggerEvent
renko id time = record {
  event = "RENKO_E1";
  canonical_event_id = id;
  source_bar_time = codes time;
  fields = [];
}

abbrev producer : String → String → ProducerEvent
producer id time = record { canonical_event_id = id; source_bar_time = codes time }

abbrev pub fresh : Db
fresh = record {
  producer_events =
      producer "liq" "2026-01-01T00:00:00Z"
      ∷ producer "a" "2026-01-01T00:01:00Z"
      ∷ producer "b" "2026-01-01T00:02:00Z"
      ∷ [];
  stories = [];
  jobs = [];
  statuses = [];
  captures = [];
  attempts = [];
  results = [];
  states = [];
  orphans = [];
  audit = [];
  health = [];
}

-- The database after a call that commits.
abbrev pub committed : {A : Type 0} → Result (A × Db) → Db
committed (ok (a, db)) = db
committed (err e) = fresh

abbrev pub is_ok : {A : Type 0} → Result A → Bool
is_ok (ok a) = true
is_ok (err e) = false

pub committed_ok :
    {A : Type 0} (r : Result (A × Db)) → is_ok r ≡ true → (a : A) × (r ≡ ok (a, committed r))
committed_ok (ok (a, db)) e = (a, refl)
committed_ok (err x) e = absurd (ground arith)

abbrev pub job : String → String → Stage → ℕ → ℕ → JobRow
job id story stage count at = record {
  job_id = id;
  analysis_id = id;
  story_id = story;
  canonical_event_id = id;
  parent_analysis_id = none;
  stage = stage;
  e1_count = count;
  requested_at = at;
  capture_scope = CaptureScope.full_baseline;
  capture = record {
    scope = CaptureScope.full_baseline;
    accepted_request = request;
    liquidity_event_facts = [];
  };
  story_memory = record {
    story = none;
    latest_materialised_state = none;
    prior_analysis_summaries = [];
  };
}

abbrev pub status : String → JobStatus → Option Text → Option ℕ → StatusRow
status id s worker lease = record {
  job_id = id;
  status = s;
  recorded_at = 0;
  worker_id = worker;
  lease_expires_at = lease;
  failure_code = none;
  detail = none;
}

abbrev pub story : String → StoryRow
story id = record { story_id = id; liquidity_event_id = id; created_at = 0 }

abbrev pub baseline : JobRow
baseline = job "j0" "s" Stage.liq_baseline 0 1

abbrev pub delta : JobRow
delta = job "j1" "s" Stage.e1_delta 1 2

abbrev pub elsewhere : JobRow
elsewhere = job "j2" "t" Stage.liq_baseline 0 3

-- Two stories: a baseline of the given status with a captured delta, and another captured baseline.
abbrev pub with_baseline : StatusRow → Db
with_baseline s = record fresh {
  stories = story "s" ∷ story "t" ∷ [];
  jobs = baseline ∷ delta ∷ elsewhere ∷ [];
  statuses =
      s ∷ status "j1" JobStatus.captured none none ∷ status "j2" JobStatus.captured none none ∷ [];
}

abbrev pub bundle : Bundle
bundle = record {
  job = baseline;
  story_memory = baseline.story_memory;
  capture_manifest_sha256 = "m";
  evidence = record {
    job_id = "j0";
    stage = "LIQ_BASELINE";
    capture_scope = "FULL_BASELINE";
    source_event_id = "j0";
    capture_request_sha256 = "request";
    captured_at = "2026-01-01T00:00:00Z";
    structured_evidence = "{}";
    structured_bytes = 2;
    images = [];
  };
}

abbrev pub grade : Grade
grade = record {
  story_id = "s";
  analysis_id = "j0";
  parent_analysis_id = none;
  stage = "LIQ_BASELINE";
  e1_count = 0;
  confidence = 7000;
  probability_band = "HIGH";
  recommendation = "BUY";
  grade = "A";
  evidence_freshness = "FRESH";
  document = "{}";
}

abbrev pub response : String → Response
response id = record {
  model = "m";
  client_request_id = "c";
  response_id = id;
  provider_request_id = none;
  request_manifest_sha256 = "sha";
}

-- The baseline is claimed by a worker, and its request has been sent.
abbrev pub requested : Db
requested = record (with_baseline (status "j0" JobStatus.claimed (some (codes "w")) (some 9000))) {
  attempts =
      record {
        attempt_id = "p";
        job_id = "j0";
        idempotency_key = "project-a-j0";
        client_request_id = "c";
        provider_response_id = none;
        model = "m";
        started_at = 1;
        ended_at = none;
        outcome = Outcome.requested;
        failure_code = none;
        request_manifest_sha256 = "sha";
      }
      ∷ [];
}
