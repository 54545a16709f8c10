-- ===== src/Output/Outbox/Refines/Operators.antt =====
-- The operators' transactions move every delivery by a step of `RowStep`.
use trading_ai_pipeline.Base.{◌≡◌, refl, String, Bool, Option, Option-cases, inl, inr, arith}
use trading_ai_pipeline.Base.Text.{Text}
use trading_ai_pipeline.Base.Table.{update}
use trading_ai_pipeline.Output.Stamp.{Time, Stamp, utc_z}
use trading_ai_pipeline.Output.Rows.{Delivery, Digest, Db, Document, ok}
use trading_ai_pipeline.Output.Outbox.Admin.{
  reset_row, reset_delivery, manual_reset, reconciled_row, reconcile_delivery, resolve_uncertain,
  record_operation,
}
use trading_ai_pipeline.Output.Outbox.RowStep.{RowStep}
use trading_ai_pipeline.Output.Outbox.Refines.{row_of, Moves, unwritten-Moves, written-Moves}

module _ (d : Digest) (actor reason : Text) where
  pub reset_delivery-deliveries :
      (id : String) (now : Stamp) (row : Delivery) (db db' : Db) (res : Unit {0})
      → reset_delivery d id actor reason now row db ≡ ok (res, db')
      → db'.deliveries ≡ update Delivery.delivery_id id reset_row db.deliveries
  unfolding reset_delivery
  reset_delivery-deliveries id now row db db' res h = ground arith

  pub manual_reset-Moves :
      (id : String) (now : Time) (db db' : Db) (res : Unit {0})
      → manual_reset d id actor reason now db ≡ ok (res, db')
      → Moves d db db'
  unfolding manual_reset
  manual_reset-Moves id now db db' res h = elim (Option-cases (row_of id db)) [
    | inl missing ↦ absurd (ground arith)
    | inr (row, e) ↦
        let ran : reset_delivery d id actor reason (utc_z now) row db ≡ ok (res, db') =
          ground arith in
        written-Moves d id reset_row row db db' (λ q. refl) e (RowStep.reset row (ground arith))
          (reset_delivery-deliveries id (utc_z now) row db db' res ran)
  ]

  pub reconcile_delivery-deliveries :
      (id : String) (found : Bool) (reference : Option String) (now : Stamp) (db db' : Db)
      (res : Unit {0})
      → reconcile_delivery d id found reference actor reason now db ≡ ok (res, db')
      → db'.deliveries
        ≡ update Delivery.delivery_id id (reconciled_row found reference now) db.deliveries
  unfolding reconcile_delivery
  reconcile_delivery-deliveries id found reference now db db' res h = ground arith

  pub resolve_uncertain-Moves :
      (id : String) (found : Bool) (reference : Option String) (now : Time) (db db' : Db)
      (res : Unit {0})
      → resolve_uncertain d id found reference actor reason now db ≡ ok (res, db')
      → Moves d db db'
  unfolding resolve_uncertain
  resolve_uncertain-Moves id found reference now db db' res h = elim (Option-cases (row_of id db)) [
    | inl missing ↦ absurd (ground arith)
    | inr (row, e) ↦
        let ran : reconcile_delivery d id found reference actor reason (utc_z now) db
            ≡ ok (res, db') =
          ground arith in
        written-Moves d id (reconciled_row found reference (utc_z now)) row db db' (λ q. refl) e
          (RowStep.reconcile row found reference (utc_z now) (ground arith))
          (reconcile_delivery-deliveries id found reference (utc_z now) db db' res ran)
  ]

  pub record_operation-Moves :
      (operation_type : Text) (now : Time) (delivery_id : Option String) (detail : Document)
      (db db' : Db) (res : String)
      → record_operation d operation_type actor reason now delivery_id detail db ≡ ok (res, db')
      → Moves d db db'
  unfolding record_operation
  record_operation-Moves operation_type now delivery_id detail db db' res h =
      unwritten-Moves d db db' (ground arith)
