-- ===== src/Output/Outbox/Recover.antt =====
-- OutboxStore.recover_abandoned
pub mod Lost
use trading_ai_pipeline.Base.{
  ℕ, String, Bool, false, ◌&&◌, none, some, List, [], ◌∷◌, select, length, str_eq, if◌then◌else◌,
}
use trading_ai_pipeline.Base.Table.{update}
use trading_ai_pipeline.Output.Stamp.{Time, Stamp, utc_z, stamp_le, minus_seconds}
use trading_ai_pipeline.Output.Rows.{
  DeliveryStatus, Delivery, Attempt, AttemptStatus, Db, ok, err, Transaction, is_claimed,
  date_overflow,
}

-- status='CLAIMED' AND claimed_at<=?
abbrev pub is_abandoned : Stamp → Delivery → Bool
is_abandoned cutoff r =
    is_claimed r.status && elim r.claimed_at [ none ↦ false | some at ↦ stamp_le at cutoff ]

abbrev pub abandoned_row : Stamp → Delivery → Delivery
abandoned_row now r = record r {
  status = DeliveryStatus.retryable_failed;
  last_error_code = some "abandoned_claim";
  next_retry_at = some now;
  claim_owner = none;
  claim_token = none;
  claimed_at = none;
}

abbrev pub abandoned_attempt : String → Stamp → Attempt → Attempt
abandoned_attempt id now a = elim a.status [
  | AttemptStatus.claimed ↦
      if str_eq a.delivery_id id
      then record a {
        finished_at = some now;
        status = AttemptStatus.abandoned;
        error_code = some "abandoned_claim";
      }
      else a
  | _ ↦ a
]

unfoldable pub abandon_attempts : String → Stamp → List Attempt → List Attempt
abandon_attempts id now [] = []
abandon_attempts id now (a ∷ rest) = abandoned_attempt id now a ∷ abandon_attempts id now rest

-- The body of the loop over the selected rows, and the loop.
unfoldable pub abandon : String → Stamp → Db → Db
abandon id now db = record db {
  deliveries = update Delivery.delivery_id id (abandoned_row now) db.deliveries;
  attempts = abandon_attempts id now db.attempts;
}

unfoldable pub recover_rows : Stamp → List Delivery → Db → Db
recover_rows now [] db = db
recover_rows now (r ∷ rows) db = recover_rows now rows (abandon r.delivery_id now db)

unfoldable pub recover_abandoned : Time → ℕ → Transaction ℕ
recover_abandoned now claim_timeout_seconds db = elim (minus_seconds now claim_timeout_seconds) [
  | none ↦ err date_overflow
  | some cutoff ↦
      let rows = select (is_abandoned (utc_z cutoff)) db.deliveries in
      ok (length rows, recover_rows (utc_z now) rows db)
]
