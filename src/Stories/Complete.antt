-- ===== src/Stories/Complete.antt =====
-- AnalysisStore.complete, which stores a validated grade and moves its story, close_story, which a
-- decision of the trader calls, and heartbeat.
use trading_ai_pipeline.Base.{
  ℕ, String, Bool, true, false, not, ◌&&◌, ◌||◌, ◌==◌, ltb, List, [], ◌∷◌, Option, none, some,
  str_eq, is_some, if◌then◌else◌,
}
use trading_ai_pipeline.Base.Table.{find}
use trading_ai_pipeline.Base.Text.{Text, text_eq}
use trading_ai_pipeline.Output.Stamp.{Time}
use trading_ai_pipeline.Stories.Rows.{
  Millis, utc_z, Document, JobStatus, Outcome, StoryStatus, Decision, Value, Entry, JobRow,
  StatusRow, AttemptRow, ResultRow, StateRow, StoryRow, HealthRow, Hashes, Transaction, ok, ◌>>=◌,
  ◌>>◌, pure, read, require, require_some, grade_invalid, grade_identity, grade_band, grade_unsafe,
  attempt_missing, monotonicity, decision_invalid, decision_conflict, story_missing,
}
use trading_ai_pipeline.Stories.Tables.{
  insert_status, insert_attempt, insert_result, insert_state, latest_state, is_closed,
  is_closed_row, same_id,
}
use trading_ai_pipeline.Stories.Audit.{record_audit}
use trading_ai_pipeline.Stories.Enqueue.{digest, entry, optional, is_baseline, stage_name}
use trading_ai_pipeline.Stories.Work.{Bundle, last_request, worker_name}

-- The fields of a Grade that the store reads, and the whole document. The confidence is counted in
-- ten-thousandths.
pub record Grade : Type 0 where
  pub story_id : String
  pub analysis_id : String
  pub parent_analysis_id : Option String
  pub stage : String
  pub e1_count : ℕ
  pub confidence : ℕ
  pub probability_band : String
  pub recommendation : String
  pub grade : String
  pub evidence_freshness : String
  pub document : Document

-- What the code takes from the JSON library: validate_contract against the Grade schema, and the two
-- renderings of a big picture.
pub record GradeLibrary : Type 0 where
  pub validate_contract : Grade → Bool
  pub baseline_picture : String → Grade → Document
  pub plain_picture : Document
  pub symbol_picture : Document

unfoldable pub expected_band : ℕ → String
expected_band confidence =
    if ltb confidence 4000
    then "LOW"
    else if ltb confidence 6000
    then "MEDIUM"
    else if ltb confidence 8000
    then "HIGH"
    else "VERY_HIGH"

abbrev pub same_optional : Option String → Option String → Bool
same_optional none none = true
same_optional a b = same_id a b

unfoldable pub identifies : JobRow → Grade → Bool
identifies j g =
    str_eq g.story_id j.story_id
    && str_eq g.analysis_id j.analysis_id
    && same_optional g.parent_analysis_id j.parent_analysis_id
    && str_eq g.stage (stage_name j.stage)
    && g.e1_count == j.e1_count

unfoldable pub is_unsafe : Grade → Bool
is_unsafe g =
    not (str_eq g.recommendation "WAIT")
    && (str_eq g.grade "UNGRADABLE" || str_eq g.evidence_freshness "STALE")

-- The guards before the transaction.
unfoldable pub check_grade : GradeLibrary → JobRow → Grade → Transaction (Unit {0})
check_grade lib j g = do
  require (lib.validate_contract g) grade_invalid
  require (identifies j g) grade_identity
  require (str_eq g.probability_band (expected_band g.confidence)) grade_band
  require (not (is_unsafe g)) grade_unsafe

-- What the provider answered.
pub record Response : Type 0 where
  pub model : String
  pub client_request_id : String
  pub response_id : String
  pub provider_request_id : Option String
  pub request_manifest_sha256 : String

abbrev pub validated_row : Hashes → JobRow → AttemptRow → Response → Millis → AttemptRow
validated_row h j a r stamp = record {
  attempt_id =
      digest h "provider_validated_" (Value.str a.attempt_id ∷ Value.str r.response_id ∷ []);
  job_id = j.job_id;
  idempotency_key = a.idempotency_key;
  client_request_id = r.client_request_id;
  provider_response_id = some r.response_id;
  model = r.model;
  started_at = a.started_at;
  ended_at = some stamp;
  outcome = Outcome.validated;
  failure_code = none;
  request_manifest_sha256 = r.request_manifest_sha256;
}

abbrev pub result_row : Bundle → Grade → Response → Millis → ResultRow
result_row b g r stamp = record {
  analysis_id = b.job.analysis_id;
  story_id = b.job.story_id;
  job_id = b.job.job_id;
  parent_analysis_id = b.job.parent_analysis_id;
  completed_at = stamp;
  grade = g.document;
  evidence_manifest_sha256 = b.capture_manifest_sha256;
  client_request_id = r.client_request_id;
  provider_response_id = r.response_id;
  model = r.model;
}

-- previous["status"] == "ACTIVE" and previous["e1_count"] > job["e1_count"]
unfoldable pub is_behind : JobRow → Option StateRow → Bool
is_behind j none = false
is_behind j (some p) = not (is_closed_row p.status) && ltb j.e1_count p.e1_count

unfoldable pub big_picture : GradeLibrary → JobRow → Grade → Option StateRow → Document
big_picture lib j g previous =
    if is_baseline j.stage
    then lib.baseline_picture j.analysis_id g
    else elim previous [ none ↦ lib.plain_picture | some p ↦ p.big_picture ]

unfoldable pub baseline_of : JobRow → Option StateRow → Option String
baseline_of j previous =
    if is_baseline j.stage
    then some j.analysis_id
    else elim previous [ none ↦ none | some p ↦ p.liquidity_baseline_analysis_id ]

abbrev pub active_row : GradeLibrary → JobRow → Grade → Option StateRow → Millis → StateRow
active_row lib j g previous stamp = record {
  story_id = j.story_id;
  analysis_id = some j.analysis_id;
  status = StoryStatus.active;
  e1_count = j.e1_count;
  big_picture = big_picture lib j g previous;
  liquidity_baseline_analysis_id = baseline_of j previous;
  latest_analysis_id = some j.analysis_id;
  latest_grade = some g.document;
  decision = none;
  recorded_at = stamp;
}

unfoldable pub materialise :
    GradeLibrary → JobRow → Grade → Option StateRow → Millis → Bool → Transaction (Unit {0})
materialise lib j g previous stamp true = pure tt
materialise lib j g previous stamp false = insert_state (active_row lib j g previous stamp)

abbrev pub completed_row : String → Millis → StatusRow
completed_row job stamp = record {
  job_id = job;
  status = JobStatus.completed;
  recorded_at = stamp;
  worker_id = some worker_name;
  lease_expires_at = none;
  failure_code = none;
  detail = none;
}

abbrev completion_entries : JobRow → Grade → Response → List Entry
completion_entries j g r =
    entry "analysis_id" (Value.str j.analysis_id)
    ∷ entry "stage" (Value.str (stage_name j.stage))
    ∷ entry "e1_count" (Value.num j.e1_count)
    ∷ entry "response_id" (Value.str r.response_id)
    ∷ entry "provider_request_id" (optional r.provider_request_id)
    ∷ entry "model" (Value.str r.model)
    ∷ entry "recommendation" (Value.str g.recommendation)
    ∷ []

unfoldable pub store_grade :
    Hashes → GradeLibrary → Bundle → Grade → Response → Millis → Transaction (Unit {0})
store_grade h lib b g r stamp = do
  last ← read (last_request b.job)
  attempt ← require_some last attempt_missing
  insert_attempt (validated_row h b.job attempt r stamp)
  insert_result (result_row b g r stamp)
  previous ← read (latest_state b.job.story_id)
  require (not (is_behind b.job previous)) monotonicity
  closed ← read (is_closed b.job.story_id)
  materialise lib b.job g previous stamp closed
  insert_status (completed_row b.job.job_id stamp)
  record_audit h stamp
      (if closed then "VALIDATED_GRADE_IGNORED_AFTER_CLOSURE" else "VALIDATED_GRADE_MATERIALISED")
      (some b.job.story_id) (some b.job.job_id) (completion_entries b.job g r)

-- A result that is there already is kept.
unfoldable pub store_once :
    Hashes → GradeLibrary → Bundle → Grade → Response → Millis → Bool → Transaction (Unit {0})
store_once h lib b g r stamp true = pure tt
store_once h lib b g r stamp false = store_grade h lib b g r stamp

unfoldable pub complete :
    Hashes → GradeLibrary → Bundle → Grade → Response → Time → Transaction (Unit {0})
complete h lib b g r at = do
  check_grade lib b.job g
  stored ← read (λ db. is_some (find ResultRow.analysis_id b.job.analysis_id db.results))
  store_once h lib b g r (utc_z at) stored

abbrev pub closed_row : GradeLibrary → String → Decision → Millis → Option StateRow → StateRow
closed_row lib story decision stamp none = record {
  story_id = story;
  analysis_id = none;
  status = StoryStatus.closed;
  e1_count = 0;
  big_picture = lib.symbol_picture;
  liquidity_baseline_analysis_id = none;
  latest_analysis_id = none;
  latest_grade = none;
  decision = some decision;
  recorded_at = stamp;
}
closed_row lib story decision stamp (some p) = record p {
  story_id = story;
  analysis_id = none;
  status = StoryStatus.closed;
  decision = some decision;
  recorded_at = stamp;
}

abbrev pub decision_name : Decision → String
decision_name Decision.entered = "ENTERED"
decision_name Decision.skipped = "SKIPPED"

abbrev pub same_decision : Decision → Option Decision → Bool
same_decision Decision.entered (some Decision.entered) = true
same_decision Decision.skipped (some Decision.skipped) = true
same_decision _ _ = false

-- The decision's text: only "ENTERED" and "SKIPPED" are read.
unfoldable pub parse_decision : String → Option Decision
parse_decision text =
    if str_eq text "ENTERED"
    then some Decision.entered
    else if str_eq text "SKIPPED"
    then some Decision.skipped
    else none

unfoldable pub write_closure :
    Hashes → GradeLibrary → String → Decision → Millis → Option StateRow → Transaction (Unit {0})
write_closure h lib story decision stamp previous = do
  insert_state (closed_row lib story decision stamp previous)
  record_audit h stamp "STORY_CLOSED_BY_JONES" (some story) none (
      entry "decision" (Value.str (decision_name decision))
      ∷ entry "actor" (Value.str "JONES")
      ∷ [])

unfoldable pub close_once :
    Hashes → GradeLibrary → String → Decision → Millis → Option StateRow → Transaction (Unit {0})
close_once h lib story decision stamp none = write_closure h lib story decision stamp none
close_once h lib story decision stamp (some p) =
    if is_closed_row p.status
    then require (same_decision decision p.decision) decision_conflict
    else write_closure h lib story decision stamp (some p)

unfoldable pub close_story :
    Hashes → GradeLibrary → String → String → Time → String → Transaction (Unit {0})
close_story h lib story decision at actor = do
  parsed ← require_some (parse_decision decision) decision_invalid
  require (str_eq actor "JONES") decision_invalid
  row ← read (λ db. find StoryRow.story_id story db.stories)
  require (is_some row) story_missing
  previous ← read (latest_state story)
  close_once h lib story parsed (utc_z at) previous

-- INSERT … ON CONFLICT(worker_id) DO UPDATE. The process id is left out.
unfoldable pub upsert_health : HealthRow → List HealthRow → List HealthRow
upsert_health r [] = r ∷ []
upsert_health r (q ∷ qs) =
    if text_eq q.worker_id r.worker_id then r ∷ qs else q ∷ upsert_health r qs

abbrev pub health_row : Text → Bool → Time → Option String → HealthRow
health_row worker enabled at error = record {
  worker_id = worker;
  provider_enabled = enabled;
  last_heartbeat_at = utc_z at;
  last_error_code = error;
}

unfoldable pub heartbeat : Text → Bool → Time → Option String → Transaction (Unit {0})
heartbeat worker enabled at error db =
    ok (tt, record db { health = upsert_health (health_row worker enabled at error) db.health })
