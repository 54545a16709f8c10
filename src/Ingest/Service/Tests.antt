-- ===== src/Ingest/Service/Tests.antt =====
-- The theorems on the ingest service, on concrete events and calls.
mod Data
use trading_ai_pipeline.Base.{
  ◌+◌, ℕ, ◌≡◌, ◌≤◌, refl, arith, String, true, false, Option, none, some, Memᴰ, length, str_eq,
  if◌then◌else◌,
}
use trading_ai_pipeline.Base.Int.{pos}
use trading_ai_pipeline.Base.Search.{first_by}
use trading_ai_pipeline.Base.Table.{find, update, Unique}
use trading_ai_pipeline.Base.Text.{strip, lower}
use trading_ai_pipeline.Output.Stamp.{plus_seconds, Time, stamp_lt, stamp_le, text_lt}
use trading_ai_pipeline.Ingest.Service.Lifecycle.{
  EventClass, EventType, snr_rejection_ready, setup_invalidated, transition, by_type, is_terminal,
}
use trading_ai_pipeline.Ingest.Service.Rows.{
  failed, ProjectAConfig, Event, Payload, Disposition, missing, number, Hashes, Ids, ResultCode,
  Receipt, SetupRow, OutboxRow, OutboxStatus, Status, Db, empty_db, persistence_failure, iso,
  has_receipt,
}
use trading_ai_pipeline.Ingest.Service.Validate.{
  validate_v02_lifecycle_support, runtime_validate, class_has, is_future, is_stale, validate_times,
  validate_evidence, validate_snr, validate_ready,
}
use trading_ai_pipeline.Ingest.Service.Commit.{
  insert_processing, dead_letter, refuse, redeliver, semantic_bar_time, duplicate_body, earliest,
  same_evidence, insert_event, current, state_of, upsert_setup, store_setup, persist, insert_outbox,
  enqueue, apply, decide, process, commit_validated,
}
use trading_ai_pipeline.Ingest.Service.Receive.{
  Setting, Request, Reading, unparsable, object, supported, valid, good, before_semicolon,
  media_type, check_event, check_document, check_version, check_reading, examine, store_raw,
  write_rejection, record_rejection, commit_or_fail, handle, receive,
}
use trading_ai_pipeline.Ingest.Service.Outbox.{
  fail_outbox, fail_row, held_row, claim_outbox, deliver_outbox, retry_outbox, claimable,
  claimed_row, created_before, change,
}
use trading_ai_pipeline.Ingest.Service.Step.{Run, here, next, receives, retries}
use trading_ai_pipeline.Ingest.Service.Setups.{setup_moves_forward}
use trading_ai_pipeline.Ingest.Service.History.{
  history_explains_state, Trail, history_of, version_of,
}
use trading_ai_pipeline.Ingest.Service.Redelivery.{
  redelivery_changes_nothing, Unchanged, again_result,
}
use trading_ai_pipeline.Ingest.Service.Dispatch.{dispatch_gated}
use trading_ai_pipeline.Ingest.Service.Dispatch.Commits.{Hands}
use trading_ai_pipeline.Ingest.Service.Gates.{IsReleasable}
use trading_ai_pipeline.Ingest.Service.Settled.{IsUntouchable}
use trading_ai_pipeline.Ingest.Service.Handover.{claim-deliver}
use trading_ai_pipeline.Ingest.Service.Retries.{given_back_bounded, Retries, none_yet, once_more}
use trading_ai_pipeline.Ingest.Service.Tests.Data.{
  after_failure, hashes, config, payload, event_at, ready_event, broken_event, type_name, hashes,
  read, setting, ids, posted, at_second, after_ready, after_broken, or_nothing, accepted_result,
  state_in, ready_row, queued, taken, after_claim, after_delivery, after_retry,
}

accepted_call :
    receive setting (ids "ing_1") (at_second 1001) (posted "ready") empty_db
    ≡ (after_ready.0, some accepted_result)
unfolding receive store_raw has_receipt examine media_type before_semicolon strip lower
    check_reading check_version check_document check_event validate_v02_lifecycle_support
    runtime_validate class_has is_future is_stale validate_times validate_evidence validate_snr
    validate_ready handle commit_or_fail record_rejection write_rejection dead_letter
    insert_processing refuse redeliver commit_validated insert_event process duplicate_body
    same_evidence earliest semantic_bar_time current decide transition by_type apply persist
    store_setup upsert_setup enqueue insert_outbox iso find update stamp_lt text_lt claim_outbox
    claimable created_before change first_by stamp_le
accepted_call = refl

ran_once : Run setting empty_db after_ready.0
ran_once =
    next here (
      receives (ids "ing_1") (at_second 1001) (posted "ready") (some accepted_result) accepted_call)

then_broken : Run setting after_ready.0 after_broken.0
then_broken =
    next here (receives (ids "ing_2") (at_second 1061) (posted "broken") after_broken.1 refl)

ran_twice : Run setting empty_db after_broken.0
ran_twice =
    next ran_once (receives (ids "ing_2") (at_second 1061) (posted "broken") after_broken.1 refl)

invalidated_in_the_end : state_in after_broken.0 ≡ some setup_invalidated
unfolding receive store_raw has_receipt examine media_type before_semicolon strip lower
    check_reading check_version check_document check_event validate_v02_lifecycle_support
    runtime_validate class_has is_future is_stale validate_times validate_evidence validate_snr
    validate_ready handle commit_or_fail record_rejection write_rejection dead_letter
    insert_processing refuse redeliver commit_validated insert_event process duplicate_body
    same_evidence earliest semantic_bar_time current decide transition by_type apply persist
    store_setup upsert_setup enqueue insert_outbox iso find update stamp_lt text_lt claim_outbox
    claimable created_before change first_by stamp_le
invalidated_in_the_end = refl

history_explains_state_example :
    Trail (state_in after_broken.0) (history_of "setup_00000001" after_broken.0)
    × (length (history_of "setup_00000001" after_broken.0)
        ≡ version_of (find SetupRow.setup_id "setup_00000001" after_broken.0.setups))
history_explains_state_example =
    history_explains_state setting after_broken.0 "setup_00000001" ran_twice

ready_found : find SetupRow.setup_id "setup_00000001" after_ready.0.setups ≡ some ready_row
unfolding receive store_raw has_receipt examine media_type before_semicolon strip lower
    check_reading check_version check_document check_event validate_v02_lifecycle_support
    runtime_validate class_has is_future is_stale validate_times validate_evidence validate_snr
    validate_ready handle commit_or_fail record_rejection write_rejection dead_letter
    insert_processing refuse redeliver commit_validated insert_event process duplicate_body
    same_evidence earliest semantic_bar_time current decide transition by_type apply persist
    store_setup upsert_setup enqueue insert_outbox iso find update stamp_lt text_lt claim_outbox
    claimable created_before change first_by stamp_le
ready_found = refl

setup_moves_forward_example :
    (r' : SetupRow) × (find SetupRow.setup_id "setup_00000001" after_broken.0.setups ≡ some r')
    × (stamp_lt r'.latest_occurred_at ready_row.latest_occurred_at ≡ false)
    × (1 ≤ r'.version)
    × (r'.symbol ≡ "XAUUSD")
    × (is_terminal (some snr_rejection_ready) ≡ true → r'.lifecycle_state ≡ snr_rejection_ready)
setup_moves_forward_example =
    setup_moves_forward setting after_ready.0 after_broken.0 "setup_00000001" ready_row then_broken
      ready_found

ready_passes : examine setting (at_second 1001) (posted "ready") ≡ good ready_event
unfolding receive store_raw has_receipt examine media_type before_semicolon strip lower
    check_reading check_version check_document check_event validate_v02_lifecycle_support
    runtime_validate class_has is_future is_stale validate_times validate_evidence validate_snr
    validate_ready handle commit_or_fail record_rejection write_rejection dead_letter
    insert_processing refuse redeliver commit_validated insert_event process duplicate_body
    same_evidence earliest semantic_bar_time current decide transition by_type apply persist
    store_setup upsert_setup enqueue insert_outbox iso find update stamp_lt text_lt claim_outbox
    claimable created_before change first_by stamp_le
ready_passes = refl

passes_again : examine setting (at_second 1100) (posted "ready") ≡ good ready_event
unfolding receive store_raw has_receipt examine media_type before_semicolon strip lower
    check_reading check_version check_document check_event validate_v02_lifecycle_support
    runtime_validate class_has is_future is_stale validate_times validate_evidence validate_snr
    validate_ready handle commit_or_fail record_rejection write_rejection dead_letter
    insert_processing refuse redeliver commit_validated insert_event process duplicate_body
    same_evidence earliest semantic_bar_time current decide transition by_type apply persist
    store_setup upsert_setup enqueue insert_outbox iso find update stamp_lt text_lt claim_outbox
    claimable created_before change first_by stamp_le
passes_again = refl

fresh_id : find Receipt.ingest_id "ing_3" after_broken.0.receipts ≡ none
unfolding receive store_raw has_receipt examine media_type before_semicolon strip lower
    check_reading check_version check_document check_event validate_v02_lifecycle_support
    runtime_validate class_has is_future is_stale validate_times validate_evidence validate_snr
    validate_ready handle commit_or_fail record_rejection write_rejection dead_letter
    insert_processing refuse redeliver commit_validated insert_event process duplicate_body
    same_evidence earliest semantic_bar_time current decide transition by_type apply persist
    store_setup upsert_setup enqueue insert_outbox iso find update stamp_lt text_lt claim_outbox
    claimable created_before change first_by stamp_le
fresh_id = refl

accepted_code : accepted_result.result_code ≡ ResultCode.done Status.accepted
unfolding receive store_raw has_receipt examine media_type before_semicolon strip lower
    check_reading check_version check_document check_event validate_v02_lifecycle_support
    runtime_validate class_has is_future is_stale validate_times validate_evidence validate_snr
    validate_ready handle commit_or_fail record_rejection write_rejection dead_letter
    insert_processing refuse redeliver commit_validated insert_event process duplicate_body
    same_evidence earliest semantic_bar_time current decide transition by_type apply persist
    store_setup upsert_setup enqueue insert_outbox iso find update stamp_lt text_lt claim_outbox
    claimable created_before change first_by stamp_le
accepted_code = refl

redelivery_changes_nothing_example :
    (db : Db) × (receive setting (ids "ing_3") (at_second 1100) (posted "ready") after_broken.0 ≡ (
      db,
      some (again_result setting (ids "ing_3") (at_second 1100) (posted "ready") ready_event),
    ))
    × Unchanged after_broken.0 db
redelivery_changes_nothing_example =
    redelivery_changes_nothing setting (ids "ing_1") (ids "ing_3") (at_second 1001) (at_second 1100)
      (posted "ready") (posted "ready") ready_event empty_db after_ready.0 after_broken.0
      accepted_result ready_passes accepted_call (λ k. ground (arith, accepted_code, k))
      (λ k. ground (arith, accepted_code, k)) then_broken passes_again fresh_id

keyed : accepted_result.dispatch_key ≡ some "ready"
unfolding receive store_raw has_receipt examine media_type before_semicolon strip lower
    check_reading check_version check_document check_event validate_v02_lifecycle_support
    runtime_validate class_has is_future is_stale validate_times validate_evidence validate_snr
    validate_ready handle commit_or_fail record_rejection write_rejection dead_letter
    insert_processing refuse redeliver commit_validated insert_event process duplicate_body
    same_evidence earliest semantic_bar_time current decide transition by_type apply persist
    store_setup upsert_setup enqueue insert_outbox iso find update stamp_lt text_lt claim_outbox
    claimable created_before change first_by stamp_le
keyed = refl

dispatch_gated_example :
    (e : Event) × (examine setting (at_second 1001) (posted "ready") ≡ good e)
    × IsReleasable config (at_second 1001) e
    × Hands e empty_db after_ready.0
dispatch_gated_example =
    dispatch_gated setting (ids "ing_1") (at_second 1001) (posted "ready") empty_db after_ready.0
      accepted_result "ready" accepted_call keyed

claim_call : claim_outbox (at_second 1002) "worker_1" after_ready.0 ≡ (some taken, after_claim)
unfolding receive store_raw has_receipt examine media_type before_semicolon strip lower
    check_reading check_version check_document check_event validate_v02_lifecycle_support
    runtime_validate class_has is_future is_stale validate_times validate_evidence validate_snr
    validate_ready handle commit_or_fail record_rejection write_rejection dead_letter
    insert_processing refuse redeliver commit_validated insert_event process duplicate_body
    same_evidence earliest semantic_bar_time current decide transition by_type apply persist
    store_setup upsert_setup enqueue insert_outbox iso find update stamp_lt text_lt claim_outbox
    claimable created_before change first_by stamp_le
claim_call = refl

queued_key : Unique OutboxRow.outbox_id after_ready.0.outbox
unfolding receive store_raw has_receipt examine media_type before_semicolon strip lower
    check_reading check_version check_document check_event validate_v02_lifecycle_support
    runtime_validate class_has is_future is_stale validate_times validate_evidence validate_snr
    validate_ready handle commit_or_fail record_rejection write_rejection dead_letter
    insert_processing refuse redeliver commit_validated insert_event process duplicate_body
    same_evidence earliest semantic_bar_time current decide transition by_type apply persist
    store_setup upsert_setup enqueue insert_outbox iso find update stamp_lt text_lt claim_outbox
    claimable created_before change first_by stamp_le
queued_key = (refl, tt)

retried_later : Run setting after_delivery after_retry
retried_later =
    let done = (retry_outbox (at_second 1004) "ing_1" after_delivery).0 in
    next here (retries (at_second 1004) "ing_1" done refl)

claim-deliver_example :
    (r₀ : OutboxRow) × Memᴰ r₀ after_ready.0.outbox
    × (claimable (iso (at_second 1002)) r₀ ≡ true)
    × (taken ≡ claimed_row (iso (at_second 1002)) "worker_1" r₀)
    × ((t : Time) (w : String) → (deliver_outbox t "ing_1" w after_claim).0 ≡ str_eq "worker_1" w)
    × IsUntouchable "ing_1" after_retry
claim-deliver_example =
    claim-deliver setting (at_second 1002) (at_second 1003) "worker_1" after_ready.0 after_claim
      after_retry taken queued_key claim_call retried_later

queued_found : find OutboxRow.outbox_id "ing_1" after_ready.0.outbox ≡ some queued
unfolding receive store_raw has_receipt examine media_type before_semicolon strip lower
    check_reading check_version check_document check_event validate_v02_lifecycle_support
    runtime_validate class_has is_future is_stale validate_times validate_evidence validate_snr
    validate_ready handle commit_or_fail record_rejection write_rejection dead_letter
    insert_processing refuse redeliver commit_validated insert_event process duplicate_body
    same_evidence earliest semantic_bar_time current decide transition by_type apply persist
    store_setup upsert_setup enqueue insert_outbox iso find update stamp_lt text_lt claim_outbox
    claimable created_before change first_by stamp_le
queued_found = refl

failure_call :
    fail_outbox config hashes "dlq_9" (at_second 1003) "ing_1" "worker_1" 30 after_claim
    ≡ some (some failed, after_failure)
unfolding receive store_raw has_receipt examine media_type before_semicolon strip lower
    check_reading check_version check_document check_event validate_v02_lifecycle_support
    runtime_validate class_has is_future is_stale validate_times validate_evidence validate_snr
    validate_ready handle commit_or_fail record_rejection write_rejection dead_letter
    insert_processing refuse redeliver commit_validated insert_event process duplicate_body
    same_evidence earliest semantic_bar_time current decide transition by_type apply persist
    store_setup upsert_setup enqueue insert_outbox iso find update stamp_lt text_lt claim_outbox
    claimable created_before change first_by stamp_le held_row fail_outbox fail_row plus_seconds
failure_call = refl

given_back_bounded_example : 1 + 1 ≤ config.max_outbox_attempts
given_back_bounded_example =
    given_back_bounded setting "ing_1" 1 after_ready.0 after_failure queued (ground arith)
      queued_key queued_found
      (once_more (at_second 1002) (at_second 1003) "worker_1" "worker_1" "dlq_9" 30 none_yet here
        claim_call refl here failure_call)
