-- ===== src/Output/Tests/Reconcile.antt =====
-- Reconciliation of a result that was uncertain.
use trading_ai_pipeline.Base.{◌≡◌, refl, true, none, some, [], ◌∷◌}
use trading_ai_pipeline.Base.Table.{find, update}
use trading_ai_pipeline.Output.Stamp.{utc_z}
use trading_ai_pipeline.Output.Rows.{
  ResultStatus, Delivery, Part, Db, RendererResult, ok, stable_id,
}
use trading_ai_pipeline.Output.Outbox.Claim.{max_attempt}
use trading_ai_pipeline.Output.Outbox.Finish.{reported, finished_row}
use trading_ai_pipeline.Output.Outbox.Create.{thesis_row, new_delivery}
use trading_ai_pipeline.Output.Outbox.Admin.{
  reconciled_row, insert_operation, reconcile_delivery, resolve_uncertain,
}
use trading_ai_pipeline.Base.Text.{codes, strip}
use trading_ai_pipeline.Output.Rows.{Detail}
use trading_ai_pipeline.Output.Dispatcher.{get_context}
use trading_ai_pipeline.Output.Dispatcher.Operator.{
  Reconcilers, reference, reconcile_with, reconcile_uncertain,
}
use trading_ai_pipeline.Output.Tests.{digest, later, id, claimed_db, held, report}

abbrev uncertain_report : RendererResult
uncertain_report = record report { status = ResultStatus.uncertain; external_reference = none }

abbrev uncertain_db : Db
uncertain_db = reported uncertain_report none claimed_db

abbrev reconcilers : Reconcilers
reconcilers kind = some (λ context. reference (some "message"))

abbrev settled : Delivery
settled =
    reconciled_row true (some "message") (utc_z later) (finished_row uncertain_report none held)

abbrev settled_db : Db
settled_db = record uncertain_db {
  deliveries =
      update Delivery.delivery_id id (reconciled_row true (some "message") (utc_z later))
        uncertain_db.deliveries;
  operations =
      record {
        operation_id =
            stable_id digest "operation"
              (Part.text id
                ∷ Part.chars (codes "jones")
                ∷ Part.chars (codes "found")
                ∷ Part.at (utc_z later)
                ∷ Part.text "reconcile"
                ∷ [])
              32;
        operation_type = codes "RECONCILE_UNCERTAIN";
        delivery_id = some id;
        actor = codes "jones";
        reason = codes "found";
        created_at = utc_z later;
        detail = Detail.reconciled true (some "message");
      }
      ∷ [];
}

reconciled_ok :
    reconcile_uncertain digest reconcilers id later (codes "jones") (codes "found") uncertain_db
    ≡ ok (true, settled_db)
unfolding reconcile_uncertain reconcile_with resolve_uncertain reconcile_delivery insert_operation
    get_context find update new_delivery stable_id max_attempt reported thesis_row strip
reconciled_ok = refl
