-- ===== src/Output/Outbox/Finish.antt =====
-- OutboxStore.finish
pub mod Ownership
use trading_ai_pipeline.Base.{
  ℕ, String, Bool, false, ◌&&◌, Option, none, some, or_else, str_eq, if◌then◌else◌,
}
use trading_ai_pipeline.Base.Table.{find, update}
use trading_ai_pipeline.Output.Stamp.{Time, Stamp, utc_z, plus_seconds}
use trading_ai_pipeline.Output.Rows.{
  DeliveryStatus, ResultStatus, RendererResult, Delivery, Attempt, AttemptStatus, Db, Result, ok,
  err, Transaction, is_completed, is_claimed, claim_lost, date_overflow,
}

-- mapping[result.status]
abbrev pub delivery_status : ResultStatus → DeliveryStatus
delivery_status ResultStatus.success = DeliveryStatus.succeeded
delivery_status ResultStatus.already_completed = DeliveryStatus.succeeded
delivery_status ResultStatus.dry_run_success = DeliveryStatus.dry_run_succeeded
delivery_status ResultStatus.retryable_failure = DeliveryStatus.retryable_failed
delivery_status ResultStatus.terminal_failure = DeliveryStatus.terminal_failed
delivery_status ResultStatus.blocked_safety = DeliveryStatus.blocked
delivery_status ResultStatus.uncertain = DeliveryStatus.uncertain

-- next_retry: set after a retryable failure only.
unfoldable pub retry_time : ResultStatus → Time → ℕ → Result (Option Stamp)
retry_time ResultStatus.retryable_failure t seconds = elim (plus_seconds t seconds) [
  | none ↦ err date_overflow
  | some at ↦ ok (some (utc_z at))
]
retry_time _ t seconds = ok none

abbrev pub finished_row : RendererResult → Option Stamp → Delivery → Delivery
finished_row result next_retry r = record r {
  status = delivery_status result.status;
  next_retry_at = next_retry;
  last_error_code = result.error_code;
  external_reference = or_else result.external_reference r.external_reference;
  completion_at =
      if is_completed (delivery_status result.status) then some (utc_z result.timestamp) else none;
  claim_owner = none;
  claim_token = none;
  claimed_at = none;
  result = some result;
}

abbrev pub finished_attempt : RendererResult → Attempt → Attempt
finished_attempt result a = record a {
  finished_at = some (utc_z result.timestamp);
  status = AttemptStatus.reported result.status;
  error_code = result.error_code;
  external_reference = result.external_reference;
  result = some result;
}

-- row and row["claim_token"] == claim_token and row["status"] == 'CLAIMED'
abbrev pub holds_claim : Option Delivery → String → Bool
holds_claim none token = false
holds_claim (some row) token =
    elim row.claim_token [ none ↦ false | some held ↦ str_eq held token ] && is_claimed row.status

-- What the two UPDATE statements of `finish` write.
unfoldable pub reported : RendererResult → Option Stamp → Db → Db
reported result next_retry db = record db {
  deliveries =
      update Delivery.delivery_id result.delivery_id (finished_row result next_retry) db.deliveries;
  attempts = update Attempt.attempt_id result.attempt_id (finished_attempt result) db.attempts;
}

unfoldable pub finish : RendererResult → String → ℕ → Transaction (Unit {0})
finish result token retry_seconds db =
    elim (retry_time result.status result.timestamp retry_seconds) [
      | err e ↦ err e
      | ok next_retry ↦
          if holds_claim (find Delivery.delivery_id result.delivery_id db.deliveries) token
          then ok (tt, reported result next_retry db)
          else err claim_lost
    ]
