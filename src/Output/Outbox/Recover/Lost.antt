-- ===== src/Output/Outbox/Recover/Lost.antt =====
-- What recovery does to an abandoned claim.
use trading_ai_pipeline.Base.{ℕ, ◌≡◌, refl, String, true, Option, some, select, any, arith}
use trading_ai_pipeline.Base.Table.{select-find}
use trading_ai_pipeline.Output.Stamp.{Time, Stamp, utc_z, minus_seconds}
use trading_ai_pipeline.Output.Rows.{Delivery, RendererResult, Db, ok, err, claim_lost}
use trading_ai_pipeline.Output.Outbox.Recover.{
  is_abandoned, abandoned_row, recover_rows, recover_abandoned,
}
use trading_ai_pipeline.Output.Outbox.Finish.{retry_time, finish}
use trading_ai_pipeline.Output.Outbox.Refines.{row_of}
use trading_ai_pipeline.Output.Outbox.Refines.Recovery.{is_row, row_of-recover_rows}

module _ (now cutoff : Time) (timeout n : ℕ) (db db' : Db) (r : Delivery) (id : String)
    (found : row_of id db ≡ some r) (date : minus_seconds now timeout ≡ some cutoff)
    (old : is_abandoned (utc_z cutoff) r ≡ true)
    (ran : recover_abandoned now timeout db ≡ ok (n, db')) where
  -- A delivery whose claim is older than the timeout becomes retryable at once, with no claim left.
  pub recover-abandoned_row : row_of id db' ≡ some (abandoned_row (utc_z now) r)
  unfolding recover_abandoned
  recover-abandoned_row =
      let rows = select (is_abandoned (utc_z cutoff)) db.deliveries in
      let result : db' ≡ recover_rows (utc_z now) rows db = ground arith in
      let hit : any (is_row id) rows ≡ true =
        select-find Delivery.delivery_id (is_abandoned (utc_z cutoff)) id db.deliveries r found
          old in
      rw (result, row_of-recover_rows, hit, found) refl

  -- A claim that has been recovered as abandoned is lost: whatever token is shown, a report on the
  -- delivery is refused as `claim_lost` (its retry time being a date that exists).
  pub recovered_claim_lost :
      (result : RendererResult) (token : String) (seconds : ℕ) (next_retry : Option Stamp)
      → result.delivery_id ≡ id
      → retry_time result.status result.timestamp seconds ≡ ok next_retry
      → finish result token seconds db' ≡ err claim_lost
  unfolding finish
  recovered_claim_lost result token seconds next_retry same e =
      let there : row_of result.delivery_id db' ≡ some (abandoned_row (utc_z now) r) =
        rw same recover-abandoned_row in
      ground arith
