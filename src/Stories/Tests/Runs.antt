-- ===== src/Stories/Tests/Runs.antt =====
-- The theorems on runs of the store, at a touch of liquidity with two deltas and a closure.
use trading_ai_pipeline.Base.{◌≡◌, refl, true, [], ◌∷◌, none, some, reverse, length}
use trading_ai_pipeline.Stories.Rows.{
  Db, StateRow, ok, Decision, ◌>>=◌, ◌>>◌, pure, fail, read, require, require_some, utc_z,
}
use trading_ai_pipeline.Base.Search.{first_by}
use trading_ai_pipeline.Stories.Tables.{
  insert_if, insert_story, insert_job, insert_status, insert_orphan_or_ignore, story_fits, job_fits,
  has_job, is_closed, latest_state, insert_state, state_fits,
}
use trading_ai_pipeline.Base.Table.{find}
use trading_ai_pipeline.Output.Stamp.{text_lt}
use trading_ai_pipeline.Stories.Memory.{
  touched_before, story_after, latest_story, active_story, join_jobs, story_results, newer,
  latest_result, insert_newer, sort_newer, take, summaries, bounded_story_context,
}
use trading_ai_pipeline.Stories.Enqueue.{
  digest, get_field, liquidity_event_facts, named_in, names_all, baseline_job,
  e1_delta_evidence_request, max_e1_count, queue_job, record_orphan, queue_delta, enqueue_e1,
  enqueue_touch, branch, enqueue_analysis_trigger,
}
use trading_ai_pipeline.Stories.Complete.{
  close_story, close_once, write_closure, parse_decision, closed_row,
}
use trading_ai_pipeline.Stories.Audit.{
  AuditReport, report, chain_valid, last_hash, record_audit, audit_row, last_rows, drop,
}
use trading_ai_pipeline.Stories.Step.{Run, Commits, Committed, Call}
use trading_ai_pipeline.Stories.Step
use trading_ai_pipeline.Stories.Chain.{audit_stays_valid}
use trading_ai_pipeline.Stories.History.{Run-AppendOnly, AppendOnly}
use trading_ai_pipeline.Stories.Closing.{closure_final}
use trading_ai_pipeline.Stories.Numbering.{deltas_counted, CountsDown, delta_counts}
use trading_ai_pipeline.Stories.Tests.Data.{
  hashes, library, setting, second, request, touch, renko, fresh, committed, is_ok, committed_ok,
}

abbrev opened : Db
opened = committed (enqueue_analysis_trigger hashes touch (second 100) (some request) fresh)

abbrev one_delta : Db
one_delta =
    committed
      (enqueue_analysis_trigger hashes (renko "a" "2026-01-01T00:01:00Z") (second 160) none opened)

abbrev two_deltas : Db
two_deltas =
    committed (
      enqueue_analysis_trigger hashes (renko "b" "2026-01-01T00:02:00Z") (second 220) none
        one_delta)

opened_ok : is_ok (enqueue_analysis_trigger hashes touch (second 100) (some request) fresh) ≡ true
unfolding ◌>>=◌ ◌>>◌ pure fail read require require_some utc_z insert_if insert_story insert_job
    insert_status insert_orphan_or_ignore story_fits job_fits has_job find first_by text_lt
    is_closed latest_state touched_before story_after latest_story active_story join_jobs
    story_results newer latest_result insert_newer sort_newer take summaries bounded_story_context
    digest get_field liquidity_event_facts named_in names_all baseline_job e1_delta_evidence_request
    max_e1_count queue_job record_orphan queue_delta enqueue_e1 enqueue_touch branch
    enqueue_analysis_trigger record_audit audit_row last_hash
opened_ok = refl

one_delta_ok :
    is_ok
      (enqueue_analysis_trigger hashes (renko "a" "2026-01-01T00:01:00Z") (second 160) none opened)
    ≡ true
unfolding ◌>>=◌ ◌>>◌ pure fail read require require_some utc_z insert_if insert_story insert_job
    insert_status insert_orphan_or_ignore story_fits job_fits has_job find first_by text_lt
    is_closed latest_state touched_before story_after latest_story active_story join_jobs
    story_results newer latest_result insert_newer sort_newer take summaries bounded_story_context
    digest get_field liquidity_event_facts named_in names_all baseline_job e1_delta_evidence_request
    max_e1_count queue_job record_orphan queue_delta enqueue_e1 enqueue_touch branch
    enqueue_analysis_trigger record_audit audit_row last_hash
one_delta_ok = refl

two_deltas_ok :
    is_ok (
      enqueue_analysis_trigger hashes
        (renko "b" "2026-01-01T00:02:00Z")
        (second 220)
        none
        one_delta)
    ≡ true
unfolding ◌>>=◌ ◌>>◌ pure fail read require require_some utc_z insert_if insert_story insert_job
    insert_status insert_orphan_or_ignore story_fits job_fits has_job find first_by text_lt
    is_closed latest_state touched_before story_after latest_story active_story join_jobs
    story_results newer latest_result insert_newer sort_newer take summaries bounded_story_context
    digest get_field liquidity_event_facts named_in names_all baseline_job e1_delta_evidence_request
    max_e1_count queue_job record_orphan queue_delta enqueue_e1 enqueue_touch branch
    enqueue_analysis_trigger record_audit audit_row last_hash
two_deltas_ok = refl

deltas_queued : Run setting fresh two_deltas
deltas_queued =
    Run.next (Step.enqueue (renko "b" "2026-01-01T00:02:00Z") (second 220) none)
      (Run.next (Step.enqueue (renko "a" "2026-01-01T00:01:00Z") (second 160) none)
        (Run.next (Step.enqueue touch (second 100) (some request)) Run.here (
          committed_ok (enqueue_analysis_trigger hashes touch (second 100) (some request) fresh)
            opened_ok))
        (committed_ok
          (enqueue_analysis_trigger hashes (renko "a" "2026-01-01T00:01:00Z") (second 160) none
            opened)
          one_delta_ok))
      (committed_ok
        (enqueue_analysis_trigger hashes (renko "b" "2026-01-01T00:02:00Z") (second 220) none
          one_delta)
        two_deltas_ok)

-- The two delta jobs have the numbers 2 and 1, the newest first.
two_numbers : delta_counts "story_liq." two_deltas.jobs ≡ 2 ∷ 1 ∷ []
unfolding delta_counts ◌>>=◌ ◌>>◌ pure fail read require require_some utc_z insert_if insert_story
    insert_job insert_status insert_orphan_or_ignore story_fits job_fits has_job find first_by
    text_lt is_closed latest_state touched_before story_after latest_story active_story join_jobs
    story_results newer latest_result insert_newer sort_newer take summaries bounded_story_context
    digest get_field liquidity_event_facts named_in names_all baseline_job e1_delta_evidence_request
    max_e1_count queue_job record_orphan queue_delta enqueue_e1 enqueue_touch branch
    enqueue_analysis_trigger record_audit audit_row last_hash
two_numbers = refl

abbrev found : AuditReport
found = record {
  chain_valid = true;
  record_count = 4;
  records = last_rows 10 (reverse two_deltas.audit);
}

four_records : report hashes 10 two_deltas ≡ ok found
unfolding report chain_valid last_rows drop ◌>>=◌ ◌>>◌ pure fail read require require_some utc_z
    insert_if insert_story insert_job insert_status insert_orphan_or_ignore story_fits job_fits
    has_job find first_by text_lt is_closed latest_state touched_before story_after latest_story
    active_story join_jobs story_results newer latest_result insert_newer sort_newer take summaries
    bounded_story_context digest get_field liquidity_event_facts named_in names_all baseline_job
    e1_delta_evidence_request max_e1_count queue_job record_orphan queue_delta enqueue_e1
    enqueue_touch branch enqueue_analysis_trigger record_audit audit_row last_hash
four_records = refl

audit_stays_valid_example :
    (found.chain_valid ≡ true) × (found.record_count ≡ length (reverse two_deltas.audit))
audit_stays_valid_example =
    audit_stays_valid setting fresh two_deltas 10 found refl deltas_queued four_records

Run-AppendOnly_example : AppendOnly fresh two_deltas
Run-AppendOnly_example = Run-AppendOnly setting fresh two_deltas deltas_queued

deltas_counted_example : CountsDown (delta_counts "story_liq." two_deltas.jobs)
deltas_counted_example = deltas_counted setting fresh two_deltas "story_liq." refl deltas_queued

abbrev closed : Db
closed =
    committed (close_story hashes library "story_liq." "SKIPPED" (second 300) "JONES" one_delta)

abbrev last_state : StateRow
last_state = closed_row library "story_liq." Decision.skipped 300000 none

state_of_closure : latest_state "story_liq." closed ≡ some last_state
unfolding close_story close_once write_closure parse_decision insert_state state_fits ◌>>=◌ ◌>>◌
    pure fail read require require_some utc_z insert_if insert_story insert_job insert_status
    insert_orphan_or_ignore story_fits job_fits has_job find first_by text_lt is_closed latest_state
    touched_before story_after latest_story active_story join_jobs story_results newer latest_result
    insert_newer sort_newer take summaries bounded_story_context digest get_field
    liquidity_event_facts named_in names_all baseline_job e1_delta_evidence_request max_e1_count
    queue_job record_orphan queue_delta enqueue_e1 enqueue_touch branch enqueue_analysis_trigger
    record_audit audit_row last_hash
state_of_closure = refl

-- A second delta of the closed story is an orphan.
abbrev after_closure : Db
after_closure =
    committed
      (enqueue_analysis_trigger hashes (renko "b" "2026-01-01T00:02:00Z") (second 400) none closed)

after_closure_ok :
    is_ok
      (enqueue_analysis_trigger hashes (renko "b" "2026-01-01T00:02:00Z") (second 400) none closed)
    ≡ true
unfolding close_story close_once write_closure parse_decision insert_state state_fits ◌>>=◌ ◌>>◌
    pure fail read require require_some utc_z insert_if insert_story insert_job insert_status
    insert_orphan_or_ignore story_fits job_fits has_job find first_by text_lt is_closed latest_state
    touched_before story_after latest_story active_story join_jobs story_results newer latest_result
    insert_newer sort_newer take summaries bounded_story_context digest get_field
    liquidity_event_facts named_in names_all baseline_job e1_delta_evidence_request max_e1_count
    queue_job record_orphan queue_delta enqueue_e1 enqueue_touch branch enqueue_analysis_trigger
    record_audit audit_row last_hash
after_closure_ok = refl

closure_final_example : latest_state "story_liq." after_closure ≡ some last_state
closure_final_example =
    closure_final setting closed after_closure "story_liq." last_state state_of_closure refl (
      Run.next (Step.enqueue (renko "b" "2026-01-01T00:02:00Z") (second 400) none) Run.here (
        committed_ok
          (enqueue_analysis_trigger hashes (renko "b" "2026-01-01T00:02:00Z") (second 400) none
            closed)
          after_closure_ok))
