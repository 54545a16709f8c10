-- ===== src/Output/Outbox/Admin.antt =====
-- The audited transactions of OutboxStore: manual reset, reconciliation of uncertain results, and
-- the record of an operation.
use trading_ai_pipeline.Base.{
  String, Bool, true, false, ◌&&◌, ◌||◌, not, Option, none, some, List, [], ◌∷◌, is_some, is_empty,
  or_else, str_eq, if◌then◌else◌,
}
use trading_ai_pipeline.Base.Table.{find, update}
use trading_ai_pipeline.Base.Text.{Text, codes, strip}
use trading_ai_pipeline.Output.Stamp.{Time, Stamp, utc_z}
use trading_ai_pipeline.Output.Rows.{
  DeliveryStatus, Delivery, Operation, Detail, Document, Result, ok, err, Transaction, Digest, Part,
  stable_id, is_completed, delivery_missing, audit_required, completed_reset_forbidden,
  external_reference_required, not_uncertain, integrity_error,
}

-- `not text.strip()`
abbrev pub is_blank : Text → Bool
is_blank t = is_empty (strip t)

-- INSERT INTO audit_operations, under its primary key.
unfoldable pub insert_operation : Operation → List Operation → Result (List Operation)
insert_operation o rows =
    if is_some (find Operation.operation_id o.operation_id rows)
    then err integrity_error
    else ok (o ∷ rows)

abbrev pub reset_row : Delivery → Delivery
reset_row r = record r {
  status = DeliveryStatus.pending;
  attempt_count = 0;
  next_retry_at = none;
  last_error_code = none;
  claim_owner = none;
  claim_token = none;
  claimed_at = none;
}

-- The part of `manual_reset` after its guards.
unfoldable pub reset_delivery :
    Digest → String → Text → Text → Stamp → Delivery → Transaction (Unit {0})
reset_delivery d id actor reason now row db =
    let op_id =
      stable_id d "operation"
        (Part.text id ∷ Part.chars actor ∷ Part.chars reason ∷ Part.at now ∷ []) 32 in
    let operation : Operation = record {
      operation_id = op_id;
      operation_type = codes "MANUAL_RESET";
      delivery_id = some id;
      actor = actor;
      reason = reason;
      created_at = now;
      detail = Detail.reset_from row.status row.attempt_count;
    } in
    elim (insert_operation operation db.operations) [
      | err e ↦ err e
      | ok operations ↦ ok (
        tt,
        record db {
          deliveries = update Delivery.delivery_id id reset_row db.deliveries;
          operations = operations;
        },
      )
    ]

unfoldable pub manual_reset : Digest → String → Text → Text → Time → Transaction (Unit {0})
manual_reset d id actor reason now db =
    if is_blank actor || is_blank reason
    then err audit_required
    else elim (find Delivery.delivery_id id db.deliveries) [
      | none ↦ err delivery_missing
      | some row ↦
          if is_completed row.status
          then err completed_reset_forbidden
          else reset_delivery d id actor reason (utc_z now) row db
    ]

abbrev pub reconciled_row : Bool → Option String → Stamp → Delivery → Delivery
reconciled_row found reference now r = record r {
  status = if found then DeliveryStatus.succeeded else DeliveryStatus.retryable_failed;
  external_reference = or_else reference r.external_reference;
  completion_at = if found then some now else none;
  next_retry_at = if found then none else some now;
  last_error_code = if found then none else some "reconciled_not_found";
  claim_owner = none;
  claim_token = none;
  claimed_at = none;
}

abbrev pub is_uncertain : DeliveryStatus → Bool
is_uncertain DeliveryStatus.uncertain = true
is_uncertain _ = false

-- `not external_reference`
abbrev pub lacks_text : Option String → Bool
lacks_text none = true
lacks_text (some s) = str_eq s ""

-- The part of `resolve_uncertain` after its guards.
unfoldable pub reconcile_delivery :
    Digest → String → Bool → Option String → Text → Text → Stamp → Transaction (Unit {0})
reconcile_delivery d id found reference actor reason now db =
    let op_id =
      stable_id d "operation"
        (Part.text id
          ∷ Part.chars actor
          ∷ Part.chars reason
          ∷ Part.at now
          ∷ Part.text "reconcile"
          ∷ [])
        32 in
    let operation : Operation = record {
      operation_id = op_id;
      operation_type = codes "RECONCILE_UNCERTAIN";
      delivery_id = some id;
      actor = actor;
      reason = reason;
      created_at = now;
      detail = Detail.reconciled found reference;
    } in
    elim (insert_operation operation db.operations) [
      | err e ↦ err e
      | ok operations ↦ ok (
        tt,
        record db {
          deliveries =
              update Delivery.delivery_id id (reconciled_row found reference now) db.deliveries;
          operations = operations;
        },
      )
    ]

unfoldable pub resolve_uncertain :
    Digest → String → Bool → Option String → Text → Text → Time → Transaction (Unit {0})
resolve_uncertain d id found reference actor reason now db =
    if is_blank actor || is_blank reason
    then err audit_required
    else if found && lacks_text reference
    then err external_reference_required
    else elim (find Delivery.delivery_id id db.deliveries) [
      | none ↦ err delivery_missing
      | some row ↦
          if not (is_uncertain row.status)
          then err not_uncertain
          else reconcile_delivery d id found reference actor reason (utc_z now) db
    ]

-- `delivery_id or ""`
abbrev pub id_or_empty : Option String → String
id_or_empty none = ""
id_or_empty (some id) = id

unfoldable pub record_operation :
    Digest → Text → Text → Text → Time → Option String → Document → Transaction String
record_operation d operation_type actor reason now delivery_id detail db =
    if is_blank operation_type || (is_blank actor || is_blank reason)
    then err audit_required
    else let op_id =
        stable_id d "operation"
          (Part.chars operation_type
            ∷ Part.chars actor
            ∷ Part.chars reason
            ∷ Part.at (utc_z now)
            ∷ Part.text (id_or_empty delivery_id)
            ∷ [])
          32 in
      let operation : Operation = record {
        operation_id = op_id;
        operation_type = operation_type;
        delivery_id = delivery_id;
        actor = actor;
        reason = reason;
        created_at = utc_z now;
        detail = Detail.given detail;
      } in
      elim (insert_operation operation db.operations) [
        | err e ↦ err e
        | ok operations ↦ ok (op_id, record db { operations = operations })
      ]
