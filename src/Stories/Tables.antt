-- ===== src/Stories/Tables.antt =====
-- The INSERT statements of the store under the keys of project_a_analysis/schema.py, and the
-- selections that several operations share. PRAGMA foreign_keys is ON.
use trading_ai_pipeline.Base.{
  String, Bool, true, false, not, ◌&&◌, ◌==◌, ltb, ◌∷◌, Option, none, some, any, select, is_some,
  str_eq, if◌then◌else◌,
}
use trading_ai_pipeline.Base.Table.{find}
use trading_ai_pipeline.Base.Search.{first_by}
use trading_ai_pipeline.Base.Text.{codes}
use trading_ai_pipeline.Output.Stamp.{text_lt}
use trading_ai_pipeline.Stories.Rows.{
  ProducerEvent, StoryRow, JobRow, StatusRow, CaptureRow, AttemptRow, ResultRow, StateRow,
  OrphanRow, Db, Transaction, ok, err, integrity_error, JobStatus, StoryStatus, Outcome,
}

-- A row that breaks a key is an IntegrityError.
unfoldable pub insert_if : Bool → (Db → Db) → Transaction (Unit {0})
insert_if fits f db = if fits then ok (tt, f db) else err integrity_error

abbrev pub same_id : Option String → Option String → Bool
same_id (some a) (some b) = str_eq a b
same_id _ _ = false

abbrev pub same_outcome : Outcome → Outcome → Bool
same_outcome Outcome.requested Outcome.requested = true
same_outcome Outcome.validated Outcome.validated = true
same_outcome Outcome.failed Outcome.failed = true
same_outcome _ _ = false

abbrev pub with_status : StatusRow → Db → Db
with_status r db = record db { statuses = r ∷ db.statuses }

abbrev pub with_state : StateRow → Db → Db
with_state r db = record db { states = r ∷ db.states }

abbrev pub with_result : ResultRow → Db → Db
with_result r db = record db { results = r ∷ db.results }

abbrev pub with_story : StoryRow → Db → Db
with_story r db = record db { stories = r ∷ db.stories }

abbrev pub with_job : JobRow → Db → Db
with_job r db = record db { jobs = r ∷ db.jobs }

abbrev pub with_capture : CaptureRow → Db → Db
with_capture r db = record db { captures = r ∷ db.captures }

abbrev pub with_attempt : AttemptRow → Db → Db
with_attempt r db = record db { attempts = r ∷ db.attempts }

abbrev pub with_orphan : OrphanRow → Db → Db
with_orphan r db = record db { orphans = r ∷ db.orphans }

unfoldable pub story_fits : StoryRow → Db → Bool
story_fits r db =
    not (is_some (find StoryRow.story_id r.story_id db.stories))
    && not (any (λ s. str_eq s.liquidity_event_id r.liquidity_event_id) db.stories)
    && is_some (find ProducerEvent.canonical_event_id r.liquidity_event_id db.producer_events)

unfoldable pub insert_story : StoryRow → Transaction (Unit {0})
insert_story r db = insert_if (story_fits r db) (with_story r) db

unfoldable pub job_fits : JobRow → Db → Bool
job_fits r db =
    not (is_some (find JobRow.job_id r.job_id db.jobs))
    && not (any (λ j. str_eq j.analysis_id r.analysis_id) db.jobs)
    && not (any (λ j. str_eq j.canonical_event_id r.canonical_event_id) db.jobs)
    && is_some (find StoryRow.story_id r.story_id db.stories)
    && is_some (find ProducerEvent.canonical_event_id r.canonical_event_id db.producer_events)

unfoldable pub insert_job : JobRow → Transaction (Unit {0})
insert_job r db = insert_if (job_fits r db) (with_job r) db

unfoldable pub has_job : String → Db → Bool
has_job id db = is_some (find JobRow.job_id id db.jobs)

unfoldable pub insert_status : StatusRow → Transaction (Unit {0})
insert_status r db = insert_if (has_job r.job_id db) (with_status r) db

unfoldable pub capture_fits : CaptureRow → Db → Bool
capture_fits r db =
    not (is_some (find CaptureRow.capture_id r.capture_id db.captures))
    && not (any (λ c. str_eq c.job_id r.job_id) db.captures)
    && has_job r.job_id db

unfoldable pub insert_capture : CaptureRow → Transaction (Unit {0})
insert_capture r db = insert_if (capture_fits r db) (with_capture r) db

-- PRIMARY KEY(attempt_id), UNIQUE(job_id, idempotency_key, outcome)
unfoldable pub attempt_is_new : AttemptRow → Db → Bool
attempt_is_new r db =
    not (is_some (find AttemptRow.attempt_id r.attempt_id db.attempts))
    && not (
        any
          (λ a.
            str_eq a.job_id r.job_id
            && str_eq a.idempotency_key r.idempotency_key
            && same_outcome a.outcome r.outcome)
          db.attempts)

unfoldable pub insert_attempt : AttemptRow → Transaction (Unit {0})
insert_attempt r db = insert_if (attempt_is_new r db && has_job r.job_id db) (with_attempt r) db

-- INSERT OR IGNORE passes over a row that breaks a unique key, and not one that breaks a reference.
unfoldable pub insert_attempt_or_ignore : AttemptRow → Transaction (Unit {0})
insert_attempt_or_ignore r db =
    if attempt_is_new r db then insert_if (has_job r.job_id db) (with_attempt r) db else ok (tt, db)

unfoldable pub result_fits : ResultRow → Db → Bool
result_fits r db =
    not (is_some (find ResultRow.analysis_id r.analysis_id db.results))
    && not (any (λ q. str_eq q.job_id r.job_id) db.results)
    && any (λ j. str_eq j.analysis_id r.analysis_id) db.jobs
    && is_some (find StoryRow.story_id r.story_id db.stories)
    && has_job r.job_id db

unfoldable pub insert_result : ResultRow → Transaction (Unit {0})
insert_result r db = insert_if (result_fits r db) (with_result r) db

abbrev refers_to_result : Option String → Db → Bool
refers_to_result none db = true
refers_to_result (some a) db = is_some (find ResultRow.analysis_id a db.results)

-- A NULL in UNIQUE(story_id, analysis_id) equals no other value.
unfoldable pub state_fits : StateRow → Db → Bool
state_fits r db =
    not (any (λ s. str_eq s.story_id r.story_id && same_id s.analysis_id r.analysis_id) db.states)
    && is_some (find StoryRow.story_id r.story_id db.stories)
    && refers_to_result r.analysis_id db

unfoldable pub insert_state : StateRow → Transaction (Unit {0})
insert_state r db = insert_if (state_fits r db) (with_state r) db

unfoldable pub insert_orphan_or_ignore : OrphanRow → Transaction (Unit {0})
insert_orphan_or_ignore r db =
    if is_some (find OrphanRow.canonical_event_id r.canonical_event_id db.orphans)
    then ok (tt, db)
    else insert_if
        (is_some (find ProducerEvent.canonical_event_id r.canonical_event_id db.producer_events))
        (with_orphan r) db

-- The status row of the greatest status_id of the job.
unfoldable pub latest_status : String → Db → Option StatusRow
latest_status id db = find StatusRow.job_id id db.statuses

-- The state row of the greatest state_id of the story.
unfoldable pub latest_state : String → Db → Option StateRow
latest_state id db = find StateRow.story_id id db.states

abbrev pub is_closed_row : StoryStatus → Bool
is_closed_row StoryStatus.closed = true
is_closed_row StoryStatus.active = false

-- EXISTS (SELECT 1 FROM project_a_story_state_history WHERE story_id=? AND status='CLOSED')
unfoldable pub is_closed : String → Db → Bool
is_closed id db = any (λ s. str_eq s.story_id id && is_closed_row s.status) db.states

abbrev pub is_completed : JobStatus → Bool
is_completed JobStatus.completed = true
is_completed _ = false

-- ORDER BY j.requested_at, j.job_id
unfoldable pub job_before : JobRow → JobRow → Bool
job_before j k =
    if j.requested_at == k.requested_at
    then text_lt (codes j.job_id) (codes k.job_id)
    else ltb j.requested_at k.requested_at

unfoldable pub first_job : (JobRow → Bool) → Db → Option JobRow
first_job p db = first_by job_before (select p db.jobs)
