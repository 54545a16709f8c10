-- ===== src/Output/Outbox/RowStep.antt =====
-- What may happen to one delivery: the state machine that the outbox promises to its clients. The
-- store's transactions are shown to be steps of it in Output/Outbox/Refines.
pub mod Life
use trading_ai_pipeline.Base.{
  ℕ, suc, ◌+◌, ◌≤◌, ◌≡◌, refl, String, Bool, true, false, Option, none, some, leb,
}
use trading_ai_pipeline.Base.Table.{find, update, find-update}
use trading_ai_pipeline.Output.Stamp.{Time, Stamp}
use trading_ai_pipeline.Output.Rows.{
  DeliveryStatus, Delivery, RendererResult, ThesisDocument, Digest, is_completed, is_claimed,
}
use trading_ai_pipeline.Output.Outbox.Claim.{is_withheld, retry_later, retry_exhausted, claimed_row}
use trading_ai_pipeline.Output.Outbox.Finish.{holds_claim, finished_row}
use trading_ai_pipeline.Output.Outbox.Recover.{abandoned_row}
use trading_ai_pipeline.Output.Outbox.Admin.{reset_row, is_uncertain, reconciled_row}
use trading_ai_pipeline.Output.Outbox.Create.{new_delivery}

pub data RowStep (d : Digest) : Option Delivery → Option Delivery → Type 0 where
  stay : {o : Option Delivery} → RowStep d o o
  create :
      (thesis : ThesisDocument) (type : String) → RowStep d none (some (new_delivery d thesis type))
  exhaust :
      (r : Delivery)
      → is_completed r.status ≡ false
      → is_withheld r.status ≡ false
      → RowStep d (some r) (some (retry_exhausted r))
  start :
      (r : Delivery) (now : Stamp) (limit : ℕ) (worker token : String)
      → is_completed r.status ≡ false
      → is_withheld r.status ≡ false
      → leb limit r.attempt_count ≡ false
      → retry_later r.next_retry_at now ≡ false
      → RowStep d (some r) (some (claimed_row (r.attempt_count + 1) now worker token r))
  finish :
      (r : Delivery) (result : RendererResult) (next_retry : Option Stamp) (token : String)
      → holds_claim (some r) token ≡ true
      → RowStep d (some r) (some (finished_row result next_retry r))
  abandon :
      (r : Delivery) (now : Stamp)
      → is_claimed r.status ≡ true
      → RowStep d (some r) (some (abandoned_row now r))
  reset : (r : Delivery) → is_completed r.status ≡ false → RowStep d (some r) (some (reset_row r))
  reconcile :
      (r : Delivery) (found : Bool) (reference : Option String) (now : Stamp)
      → is_uncertain r.status ≡ true
      → RowStep d (some r) (some (reconciled_row found reference now r))
