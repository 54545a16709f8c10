-- ===== src/Stories/Tests/Jobs.antt =====
-- The theorems on jobs, at two stories with three jobs.
use trading_ai_pipeline.Base.{◌+◌, ◌≡◌, ◌≤◌, ◌<◌, ◌⊎◌, refl, true, false, Memᴰ, none, some, arith}
use trading_ai_pipeline.Base.Table.{find}
use trading_ai_pipeline.Base.Text.{codes, lower}
use trading_ai_pipeline.Output.Stamp.{Time, plus_seconds, text_lt}
use trading_ai_pipeline.Stories.Rows.{
  JobStatus, StatusRow, ResultRow, Db, ok, ◌>>=◌, ◌>>◌, pure, fail, read, require, require_some,
  utc_z,
}
use trading_ai_pipeline.Base.Search.{first_by}
use trading_ai_pipeline.Stories.Tables.{
  insert_if, insert_status, insert_attempt, insert_attempt_or_ignore, insert_result, insert_state,
  attempt_is_new, result_fits, state_fits, has_job, first_job, job_before, is_closed, latest_state,
  latest_status,
}
use trading_ai_pipeline.Stories.Audit.{record_audit, audit_row, last_hash}
use trading_ai_pipeline.Stories.Enqueue.{digest}
use trading_ai_pipeline.Stories.Capture.{
  like_capture, capture_owner, awaits_capture, capture_expired, can_capture, after, expire_capture,
  take_capture, expire_or_take, claim_capture_job, check_expiry, check_lease, failed_captures,
  retry_delay, bounded, exhaust_capture, retry_capture, settle_failure, capture_failure,
  claimed_row,
}
use trading_ai_pipeline.Stories.Work.{
  awaits_work, is_prior, has_unfinished_prior, is_wanted, can_work, take_job, claim_next,
  last_request, fail_attempt, technical_failure, failure_row,
}
use trading_ai_pipeline.Stories.Complete.{
  expected_band, identifies, is_unsafe, check_grade, is_behind, big_picture, baseline_of,
  materialise, store_grade, store_once, complete,
}
use trading_ai_pipeline.Stories.Claims.{claim_in_order, Workable, EarlierUnfinished}
use trading_ai_pipeline.Stories.Leases.{lease_excludes, grants}
use trading_ai_pipeline.Stories.Failures.{failure_settles, Holds, Exhausted, Scheduled}
use trading_ai_pipeline.Stories.Finishing.{failure_blocks_story}
use trading_ai_pipeline.Stories.Tests.Data.{
  hashes, library, second, committed, baseline, delta, elsewhere, status, with_baseline, bundle,
  grade, response, requested,
}

-- The baseline is completed, so its delta can be claimed.
abbrev ready : Db
ready = with_baseline (status "j0" JobStatus.completed none none)

abbrev delta_claimed : Db
delta_claimed = committed (claim_next hashes (codes "w") (second 10) 180 (some "j1") ready)

delta_granted :
    claim_next hashes (codes "w") (second 10) 180 (some "j1") ready ≡ ok (some delta, delta_claimed)
unfolding ◌>>=◌ ◌>>◌ pure fail read require require_some utc_z plus_seconds text_lt find lower
    insert_if insert_status insert_attempt insert_attempt_or_ignore insert_result insert_state
    attempt_is_new result_fits state_fits has_job first_by first_job job_before is_closed
    latest_state latest_status record_audit audit_row last_hash digest like_capture capture_owner
    awaits_capture capture_expired can_capture after expire_capture take_capture expire_or_take
    claim_capture_job check_expiry check_lease failed_captures retry_delay bounded exhaust_capture
    retry_capture settle_failure capture_failure awaits_work is_prior has_unfinished_prior can_work
    take_job claim_next last_request fail_attempt technical_failure expected_band identifies
    is_unsafe check_grade is_behind big_picture baseline_of materialise store_grade store_once
    complete
delta_granted = refl

claim_in_order_example :
    Memᴰ delta ready.jobs
    × (is_wanted (some "j1") delta ≡ true)
    × ((q : StatusRow) × (latest_status "j1" ready ≡ some q) × Workable (utc_z (second 10)) q)
    × (is_closed "s" ready ≡ false)
    × (¬ (EarlierUnfinished delta ready))
    × ((t : Time) × (plus_seconds (second 10) 180 ≡ some t)
        × (latest_status "j1" delta_claimed
            ≡ some (claimed_row "j1" (utc_z (second 10)) (codes "w") (utc_z t))))
claim_in_order_example =
    claim_in_order hashes (codes "w") (second 10) 180 (some "j1") ready delta_claimed delta
      delta_granted

-- The baseline's capture is claimed until the hundredth second.
abbrev held : StatusRow
held = status "j0" JobStatus.claimed (some (capture_owner (codes "w") (codes "t"))) (some 100000)

abbrev capturing : Db
capturing = with_baseline held

nothing_to_capture :
    claim_capture_job hashes (codes "v") (codes "u") (second 50) 90 capturing ≡ ok (none, capturing)
unfolding ◌>>=◌ ◌>>◌ pure fail read require require_some utc_z plus_seconds text_lt find lower
    insert_if insert_status insert_attempt insert_attempt_or_ignore insert_result insert_state
    attempt_is_new result_fits state_fits has_job first_by first_job job_before is_closed
    latest_state latest_status record_audit audit_row last_hash digest like_capture capture_owner
    awaits_capture capture_expired can_capture after expire_capture take_capture expire_or_take
    claim_capture_job check_expiry check_lease failed_captures retry_delay bounded exhaust_capture
    retry_capture settle_failure capture_failure awaits_work is_prior has_unfinished_prior can_work
    take_job claim_next last_request fail_attempt technical_failure expected_band identifies
    is_unsafe check_grade is_behind big_picture baseline_of materialise store_grade store_once
    complete
nothing_to_capture = refl

abbrev other_claimed : Db
other_claimed = committed (claim_next hashes (codes "v") (second 200) 180 none capturing)

other_granted :
    claim_next hashes (codes "v") (second 200) 180 none capturing
    ≡ ok (some elsewhere, other_claimed)
unfolding ◌>>=◌ ◌>>◌ pure fail read require require_some utc_z plus_seconds text_lt find lower
    insert_if insert_status insert_attempt insert_attempt_or_ignore insert_result insert_state
    attempt_is_new result_fits state_fits has_job first_by first_job job_before is_closed
    latest_state latest_status record_audit audit_row last_hash digest like_capture capture_owner
    awaits_capture capture_expired can_capture after expire_capture take_capture expire_or_take
    claim_capture_job check_expiry check_lease failed_captures retry_delay bounded exhaust_capture
    retry_capture settle_failure capture_failure awaits_work is_prior has_unfinished_prior can_work
    take_job claim_next last_request fail_attempt technical_failure expected_band identifies
    is_unsafe check_grade is_behind big_picture baseline_of materialise store_grade store_once
    complete
other_granted = refl

held_latest : latest_status "j0" capturing ≡ some held
unfolding latest_status find
held_latest = refl

held_is_capture : like_capture held.worker_id ≡ true
unfolding like_capture capture_owner lower
held_is_capture = refl

held_early : utc_z (second 50) < 100000
unfolding utc_z
held_early = omega arith

lease_excludes_example :
    (grants "j0" none ≡ false)
    × (latest_status "j0" capturing ≡ some held)
    × (latest_status "j0" other_claimed ≡ some held)
lease_excludes_example =
    lease_excludes hashes "j0" held 100000 (second 50) (second 200) capturing capturing
      other_claimed (codes "v") (codes "u") (codes "v") 90 180 none none (some elsewhere)
      held_latest refl held_is_capture refl held_early nothing_to_capture other_granted

abbrev failed_once : Db
failed_once = committed (
    capture_failure hashes "j0" (second 50) (codes "w") (codes "t") "CODE" (codes "why") 5
      capturing)

first_failure :
    capture_failure hashes "j0" (second 50) (codes "w") (codes "t") "CODE" (codes "why") 5 capturing
    ≡ ok (record { status = JobStatus.pending_capture; failure_code = "CODE" }, failed_once)
unfolding ◌>>=◌ ◌>>◌ pure fail read require require_some utc_z plus_seconds text_lt find lower
    insert_if insert_status insert_attempt insert_attempt_or_ignore insert_result insert_state
    attempt_is_new result_fits state_fits has_job first_by first_job job_before is_closed
    latest_state latest_status record_audit audit_row last_hash digest like_capture capture_owner
    awaits_capture capture_expired can_capture after expire_capture take_capture expire_or_take
    claim_capture_job check_expiry check_lease failed_captures retry_delay bounded exhaust_capture
    retry_capture settle_failure capture_failure awaits_work is_prior has_unfinished_prior can_work
    take_job claim_next last_request fail_attempt technical_failure expected_band identifies
    is_unsafe check_grade is_behind big_picture baseline_of materialise store_grade store_once
    complete
first_failure = refl

failure_settles_example :
    Holds (capture_owner (codes "w") (codes "t")) (utc_z (second 50)) (latest_status "j0" capturing)
    × (((5 ≤ failed_captures "j0" capturing + 1)
          × Exhausted "j0" (second 50) (codes "w") (codes "why") failed_once)
        ⊎ ((failed_captures "j0" capturing + 1 < 5)
            × Scheduled "j0"
                (second 50)
                (codes "w")
                "CODE"
                (codes "why")
                (failed_captures "j0" capturing + 1)
                failed_once))
failure_settles_example =
    failure_settles hashes "j0" (second 50) (codes "w") (codes "t") "CODE" (codes "why") 5
      (record { status = JobStatus.pending_capture; failure_code = "CODE" }) capturing failed_once
      first_failure

abbrev completed : Db
completed = committed (complete hashes library bundle grade (response "r") (second 5) requested)

completes :
    complete hashes library bundle grade (response "r") (second 5) requested ≡ ok (tt, completed)
unfolding ◌>>=◌ ◌>>◌ pure fail read require require_some utc_z plus_seconds text_lt find lower
    insert_if insert_status insert_attempt insert_attempt_or_ignore insert_result insert_state
    attempt_is_new result_fits state_fits has_job first_by first_job job_before is_closed
    latest_state latest_status record_audit audit_row last_hash digest like_capture capture_owner
    awaits_capture capture_expired can_capture after expire_capture take_capture expire_or_take
    claim_capture_job check_expiry check_lease failed_captures retry_delay bounded exhaust_capture
    retry_capture settle_failure capture_failure awaits_work is_prior has_unfinished_prior can_work
    take_job claim_next last_request fail_attempt technical_failure expected_band identifies
    is_unsafe check_grade is_behind big_picture baseline_of materialise store_grade store_once
    complete
completes = refl

-- A slow worker reports the failure of a baseline that another worker has completed.
abbrev late : Db
late =
    committed
      (technical_failure hashes baseline "MODEL_TIMEOUT" (codes "slow") (second 8) none completed)

fails_late :
    technical_failure hashes baseline "MODEL_TIMEOUT" (codes "slow") (second 8) none completed
    ≡ ok (tt, late)
unfolding ◌>>=◌ ◌>>◌ pure fail read require require_some utc_z plus_seconds text_lt find lower
    insert_if insert_status insert_attempt insert_attempt_or_ignore insert_result insert_state
    attempt_is_new result_fits state_fits has_job first_by first_job job_before is_closed
    latest_state latest_status record_audit audit_row last_hash digest like_capture capture_owner
    awaits_capture capture_expired can_capture after expire_capture take_capture expire_or_take
    claim_capture_job check_expiry check_lease failed_captures retry_delay bounded exhaust_capture
    retry_capture settle_failure capture_failure awaits_work is_prior has_unfinished_prior can_work
    take_job claim_next last_request fail_attempt technical_failure expected_band identifies
    is_unsafe check_grade is_behind big_picture baseline_of materialise store_grade store_once
    complete
fails_late = refl

abbrev late_claimed : Db
late_claimed = committed (claim_next hashes (codes "v") (second 200) 180 none late)

late_granted :
    claim_next hashes (codes "v") (second 200) 180 none late ≡ ok (some elsewhere, late_claimed)
unfolding ◌>>=◌ ◌>>◌ pure fail read require require_some utc_z plus_seconds text_lt find lower
    insert_if insert_status insert_attempt insert_attempt_or_ignore insert_result insert_state
    attempt_is_new result_fits state_fits has_job first_by first_job job_before is_closed
    latest_state latest_status record_audit audit_row last_hash digest like_capture capture_owner
    awaits_capture capture_expired can_capture after expire_capture take_capture expire_or_take
    claim_capture_job check_expiry check_lease failed_captures retry_delay bounded exhaust_capture
    retry_capture settle_failure capture_failure awaits_work is_prior has_unfinished_prior can_work
    take_job claim_next last_request fail_attempt technical_failure expected_band identifies
    is_unsafe check_grade is_behind big_picture baseline_of materialise store_grade store_once
    complete
late_granted = refl

baseline_queued : Memᴰ baseline completed.jobs
unfolding ◌>>=◌ ◌>>◌ pure fail read require require_some utc_z plus_seconds text_lt find lower
    insert_if insert_status insert_attempt insert_attempt_or_ignore insert_result insert_state
    attempt_is_new result_fits state_fits has_job first_by first_job job_before is_closed
    latest_state latest_status record_audit audit_row last_hash digest like_capture capture_owner
    awaits_capture capture_expired can_capture after expire_capture take_capture expire_or_take
    claim_capture_job check_expiry check_lease failed_captures retry_delay bounded exhaust_capture
    retry_capture settle_failure capture_failure awaits_work is_prior has_unfinished_prior can_work
    take_job claim_next last_request fail_attempt technical_failure expected_band identifies
    is_unsafe check_grade is_behind big_picture baseline_of materialise store_grade store_once
    complete
baseline_queued = Memᴰ.head refl

failure_blocks_story_example :
    (is_prior elsewhere baseline ≡ false)
    × (latest_status "j0" late
        ≡ some (failure_row "j0" (utc_z (second 8)) "MODEL_TIMEOUT" (bounded 240 (codes "slow"))))
    × (find ResultRow.analysis_id "j0" late.results
        ≡ find ResultRow.analysis_id "j0" completed.results)
failure_blocks_story_example =
    failure_blocks_story hashes baseline elsewhere "MODEL_TIMEOUT" (codes "slow") (second 8)
      (second 200) none (codes "v") 180 none completed late late_claimed tt fails_late
      baseline_queued late_granted
