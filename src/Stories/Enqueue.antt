-- ===== src/Stories/Enqueue.antt =====
-- enqueue_analysis_trigger: a touch of liquidity opens a story with a baseline job, a Renko E1 adds a
-- delta job to the active story, and an E1 without one is an orphan.
use Prim.Native.String.{◌++◌}
use trading_ai_pipeline.Base.{
  ℕ, ◌+◌, String, Bool, true, false, not, ◌&&◌, ltb, max, List, [], ◌∷◌, Option, none, some, map,
  any, all, select, str_eq, if◌then◌else◌,
}
use trading_ai_pipeline.Base.Text.{Text}
use trading_ai_pipeline.Output.Stamp.{Time}
use trading_ai_pipeline.Stories.Rows.{
  Millis, utc_z, Stage, liq_baseline, e1_delta, CaptureScope, full_baseline, bounded_delta,
  JobStatus, Value, Entry, RequestItem, EvidenceRequest, StoryRow, StoryMemory, JobRow, StatusRow,
  Db, Hashes, Transaction, ◌>>=◌, ◌>>◌, pure, read, require, require_some, baseline_missing,
  delta_reads, delta_screenshots, event_facts_missing,
}
use trading_ai_pipeline.Base.Search.{first_by}
use trading_ai_pipeline.Stories.Tables.{
  insert_story, insert_job, insert_status, insert_orphan_or_ignore,
}
use trading_ai_pipeline.Stories.Audit.{record_audit}
use trading_ai_pipeline.Stories.Memory.{
  Analysed, active_story, latest_result, bounded_story_context,
}

-- The canonical event: the keys that the function names, and all its fields.
pub record TriggerEvent : Type 0 where
  pub event : String
  pub canonical_event_id : String
  pub source_bar_time : Text
  pub fields : List Entry

pub data Enqueued : Type 0 where
  not_a_trigger orphan : Enqueued
  queued : String → JobRow → Enqueued

unfoldable pub digest : Hashes → String → List Value → String
digest h prefix parts = prefix ++ h.digest parts

abbrev pub stage_name : Stage → String
stage_name liq_baseline = "LIQ_BASELINE"
stage_name e1_delta = "E1_DELTA"

abbrev pub scope_name : CaptureScope → String
scope_name full_baseline = "FULL_BASELINE"
scope_name bounded_delta = "BOUNDED_DELTA"

abbrev pub is_baseline : Stage → Bool
is_baseline liq_baseline = true
is_baseline e1_delta = false

abbrev pub entry : String → Value → Entry
entry name value = record { name = name; value = value }

abbrev pub optional : Option String → Value
optional none = Value.null
optional (some s) = Value.str s

-- event.get(field)
unfoldable pub get_field : String → List Entry → Value
get_field name [] = Value.null
get_field name (e ∷ es) = if str_eq e.name name then e.value else get_field name es

abbrev pub fact_fields : List String
fact_fields =
    "producer_id" ∷ "producer_revision" ∷ "event" ∷ "level_id" ∷ "level_version" ∷ "side"
    ∷ "level_price" ∷ "touch_count" ∷ "source_bar_time" ∷ "symbol" ∷ "feed" ∷ "anchor_timeframe"
    ∷ []

abbrev is_null : Value → Bool
is_null Value.null = true
is_null _ = false

unfoldable pub liquidity_event_facts : TriggerEvent → Transaction (List Entry)
unfolding get_field
liquidity_event_facts event = do
  let facts = map (λ name. entry name (get_field name event.fields)) fact_fields
  require (not (any (λ e. is_null e.value) facts)) event_facts_missing
  pure facts

abbrev pub delta_read_ids : List String
delta_read_ids =
    "read_9333_xau_current" ∷ "read_9333_xau_closed_ohlc_5m" ∷ "read_9333_xau_macd_5m"
    ∷ "read_9333_renko_5s" ∷ "read_9333_xau_5s_price_action" ∷ []

abbrev pub delta_screenshot_ids : List String
delta_screenshot_ids = "screenshot_9333_xau_intraday" ∷ "screenshot_9333_renko" ∷ []

-- item.get("request_id") in ids
unfoldable pub named_in : List String → RequestItem → Bool
named_in ids item = elim item.request_id [ none ↦ false | some id ↦ any (str_eq id) ids ]

-- {item.get("request_id") for item in items} ⊇ ids; the other inclusion is the selection's.
unfoldable pub names_all : List String → List RequestItem → Bool
names_all ids items =
    all
      (λ id.
        any (λ (i : RequestItem). elim i.request_id [ none ↦ false | some k ↦ str_eq k id ]) items)
      ids

-- SELECT … WHERE story_id=? AND stage='LIQ_BASELINE' ORDER BY requested_at LIMIT 1
unfoldable pub baseline_job : String → Db → Option JobRow
baseline_job id db =
    first_by (λ (j k : JobRow). ltb j.requested_at k.requested_at)
      (select (λ j. str_eq j.story_id id && is_baseline j.stage) db.jobs)

unfoldable pub e1_delta_evidence_request : String → Transaction EvidenceRequest
e1_delta_evidence_request story = do
  found ← read (baseline_job story)
  job ← require_some found baseline_missing
  let baseline = job.capture.accepted_request
  let reads = select (named_in delta_read_ids) baseline.structured_reads
  let screenshots = select (named_in delta_screenshot_ids) baseline.screenshot_requests
  require (names_all delta_read_ids reads) delta_reads
  require (names_all delta_screenshot_ids screenshots) delta_screenshots
  pure record {
    structured_reads = reads;
    screenshot_requests = screenshots;
    source_identities = baseline.source_identities;
  }

-- SELECT COALESCE(MAX(e1_count), 0) … WHERE story_id=? AND stage='E1_DELTA'
unfoldable pub max_e1_count : String → List JobRow → ℕ
max_e1_count id [] = 0
max_e1_count id (j ∷ jobs) =
    let m = max_e1_count id jobs in
    if str_eq j.story_id id && not (is_baseline j.stage) then max j.e1_count m else m

abbrev pub new_job :
    Hashes
    → TriggerEvent
    → Millis
    → String
    → Stage
    → CaptureScope
    → ℕ
    → Option String
    → EvidenceRequest
    → List Entry
    → StoryMemory
    → JobRow
new_job h event stamp story stage scope e1_count parent request facts memory =
    let analysis = digest h "analysis_" (
      Value.str story
      ∷ Value.str event.canonical_event_id
      ∷ Value.str (stage_name stage)
      ∷ Value.num e1_count
      ∷ []) in
    record {
      job_id = digest h "job_" (Value.str analysis ∷ []);
      analysis_id = analysis;
      story_id = story;
      canonical_event_id = event.canonical_event_id;
      parent_analysis_id = parent;
      stage = stage;
      e1_count = e1_count;
      requested_at = stamp;
      capture_scope = scope;
      capture = record { scope = scope; accepted_request = request; liquidity_event_facts = facts };
      story_memory = memory;
    }

abbrev pub pending_row : String → Millis → StatusRow
pending_row job stamp = record {
  job_id = job;
  status = JobStatus.pending_capture;
  recorded_at = stamp;
  worker_id = none;
  lease_expires_at = none;
  failure_code = none;
  detail = none;
}

-- The part of the function after its branches.
unfoldable pub queue_job : Hashes → Millis → JobRow → Transaction Enqueued
queue_job h stamp j = do
  insert_job j
  insert_status (pending_row j.job_id stamp)
  record_audit h stamp "ANALYSIS_JOB_QUEUED" (some j.story_id) (some j.job_id) (
      entry "analysis_id" (Value.str j.analysis_id)
      ∷ entry "stage" (Value.str (stage_name j.stage))
      ∷ entry "e1_count" (Value.num j.e1_count)
      ∷ entry "parent_analysis_id" (optional j.parent_analysis_id)
      ∷ entry "capture_scope" (Value.str (scope_name j.capture_scope))
      ∷ [])
  pure (Enqueued.queued j.story_id j)

unfoldable pub record_orphan : Hashes → TriggerEvent → Millis → Transaction Enqueued
record_orphan h event stamp = do
  insert_orphan_or_ignore
      record { canonical_event_id = event.canonical_event_id; recorded_at = stamp }
  record_audit h stamp "ORPHAN_E1_RECORDED" none none
      (entry "canonical_event_id" (Value.str event.canonical_event_id) ∷ [])
  pure Enqueued.orphan

abbrev parent_of : Option Analysed → Option String
parent_of none = none
parent_of (some a) = some a.result.analysis_id

unfoldable pub queue_delta : Hashes → TriggerEvent → Millis → String → Transaction Enqueued
queue_delta h event stamp story = do
  last ← read (λ db. max_e1_count story db.jobs)
  latest ← read (latest_result story)
  memory ← read (bounded_story_context story)
  request ← e1_delta_evidence_request story
  found ← read (baseline_job story)
  baseline ← require_some found baseline_missing
  queue_job h stamp (
      new_job h event stamp story e1_delta bounded_delta (last + 1) (parent_of latest) request
        baseline.capture.liquidity_event_facts memory)

unfoldable pub enqueue_e1 : Hashes → TriggerEvent → Millis → Option StoryRow → Transaction Enqueued
enqueue_e1 h event stamp none = record_orphan h event stamp
enqueue_e1 h event stamp (some story) = queue_delta h event stamp story.story_id

-- The context of a new story, where nothing is remembered. Its constants are left out.
abbrev pub no_memory : StoryRow → StoryMemory
no_memory s = record {
  story = some s;
  latest_materialised_state = none;
  prior_analysis_summaries = [];
}

-- dict(evidence_request or {})
abbrev request_or_empty : Option EvidenceRequest → EvidenceRequest
request_or_empty (some r) = r
request_or_empty none = record {
  structured_reads = [];
  screenshot_requests = [];
  source_identities = "[]";
}

unfoldable pub enqueue_touch :
    Hashes → TriggerEvent → Millis → Option EvidenceRequest → Transaction Enqueued
enqueue_touch h event stamp request = do
  let story = digest h "story_" (Value.str event.canonical_event_id ∷ Value.at stamp ∷ [])
  let row : StoryRow = record {
    story_id = story;
    liquidity_event_id = event.canonical_event_id;
    created_at = stamp;
  }
  insert_story row
  facts ← liquidity_event_facts event
  record_audit h stamp "STORY_CREATED" (some story) none (
      entry "liquidity_event_id" (Value.str event.canonical_event_id)
      ∷ entry "e1_count" (Value.num 0)
      ∷ [])
  queue_job h stamp (
      new_job h event stamp story liq_baseline full_baseline 0 none (request_or_empty request) facts
        (no_memory row))

-- The branches of the function on the name of the event.
unfoldable pub branch :
    {A : Type 0} → Bool → Bool → Transaction A → Transaction A → Transaction A → Transaction A
branch true touch on_e1 on_touch otherwise = on_e1
branch false true on_e1 on_touch otherwise = on_touch
branch false false on_e1 on_touch otherwise = otherwise

unfoldable pub enqueue_analysis_trigger :
    Hashes → TriggerEvent → Time → Option EvidenceRequest → Transaction Enqueued
enqueue_analysis_trigger h event recorded_at request =
    branch (str_eq event.event "RENKO_E1") (str_eq event.event "LIQ_TOUCH")
      (read (active_story (some event.source_bar_time)) >>= enqueue_e1 h event (utc_z recorded_at))
      (enqueue_touch h event (utc_z recorded_at) request) (pure Enqueued.not_a_trigger)
