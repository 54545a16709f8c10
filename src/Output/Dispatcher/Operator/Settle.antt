-- ===== src/Output/Dispatcher/Operator/Settle.antt =====
-- What a reconciliation settles.
use trading_ai_pipeline.Base.{
  ◌≡◌, refl, String, Bool, Option, some, List, is_some, str_eq_iff, arith, Option-cases, inl, inr,
}
use trading_ai_pipeline.Base.Table.{find, update, find-update}
use trading_ai_pipeline.Base.Text.{Text}
use trading_ai_pipeline.Output.Stamp.{Time, utc_z}
use trading_ai_pipeline.Output.Rows.{Delivery, DeliveryStatus, Db, ok, Digest}
use trading_ai_pipeline.Output.Outbox.Admin.{reconciled_row, reconcile_delivery, resolve_uncertain}
use trading_ai_pipeline.Output.Outbox.Outcome.Again.{Result-cases}
use trading_ai_pipeline.Output.Outbox.Refines.{row_of}
use trading_ai_pipeline.Output.Dispatcher.{get_context}
use trading_ai_pipeline.Output.Dispatcher.Operator.{
  Reconcilers, Reconciling, reference, transport_error, reconcile_with, reconcile_uncertain,
}

resolve_uncertain-row :
    (d : Digest) (id : String) (found : Bool) (ref : Option String) (actor reason : Text)
    (now : Time) (db db' : Db) (res : Unit {0})
    → resolve_uncertain d id found ref actor reason now db ≡ ok (res, db')
    → (r : Delivery) × (row_of id db ≡ some r)
      × (r.status ≡ DeliveryStatus.uncertain)
      × (db'.deliveries
          ≡ update Delivery.delivery_id id (reconciled_row found ref (utc_z now)) db.deliveries)
unfolding resolve_uncertain reconcile_delivery
resolve_uncertain-row d id found ref actor reason now db db' res h =
    elim (Option-cases (row_of id db)) [
      | inl missing ↦ absurd (ground arith)
      | inr (r, e) ↦ (r, e, ground arith, ground arith)
    ]

reconcile_with-resolves :
    (d : Digest) (id : String) (actor reason : Text) (now : Time) (answer : Reconciling)
    (db db' : Db) (found : Bool)
    → reconcile_with d id actor reason now answer db ≡ ok (found, db')
    → (ref : Option String) × (answer ≡ reference ref)
      × (found ≡ is_some ref)
      × (resolve_uncertain d id found ref actor reason now db ≡ ok (tt, db'))
unfolding reconcile_with
reconcile_with-resolves d id actor reason now (transport_error code) db db' found h =
    absurd (ground arith)
reconcile_with-resolves d id actor reason now (reference ref) db db' found h =
    (ref, refl, ground arith, ground arith)

reconcile_uncertain-answer :
    (d : Digest) (reconcilers : Reconcilers) (id : String) (now : Time) (actor reason : Text)
    (db db' : Db) (found : Bool)
    → reconcile_uncertain d reconcilers id now actor reason db ≡ ok (found, db')
    → (answer : Reconciling) × (reconcile_with d id actor reason now answer db ≡ ok (found, db'))
unfolding reconcile_uncertain
reconcile_uncertain-answer d reconcilers id now actor reason db db' found h =
    elim (Result-cases (get_context id db)) [
      | inr (e, bad) ↦ absurd (ground arith)
      | inl (context, good) ↦ elim (Option-cases (reconcilers context.delivery.renderer_type)) [
        | inl missing ↦ absurd (ground arith)
        | inr (reconcile, e) ↦ (reconcile context, ground arith)
      ]
    ]

written_row :
    (id : String) (f : Delivery → Delivery) (rows rows' : List Delivery) (r : Delivery)
    → ((q : Delivery) → Delivery.delivery_id (f q) ≡ Delivery.delivery_id q)
    → find Delivery.delivery_id id rows ≡ some r
    → rows' ≡ update Delivery.delivery_id id f rows
    → find Delivery.delivery_id id rows' ≡ some (f r)
written_row id f rows rows' r keep e wrote =
    rw (wrote, find-update Delivery.delivery_id id id f rows keep, e, (str_eq_iff id id).1 refl)
      refl

-- A reconciliation that succeeds was of a delivery that was UNCERTAIN, and the renderer's answer
-- decides what becomes of it: SUCCEEDED under the reference that was found, or RETRYABLE_FAILED,
-- due at once, where none was; the result says which.
pub reconcile_settles :
    (d : Digest) (reconcilers : Reconcilers) (id : String) (now : Time) (actor reason : Text)
    (db db' : Db) (found : Bool)
    → reconcile_uncertain d reconcilers id now actor reason db ≡ ok (found, db')
    → (r : Delivery) × (ref : Option String) × (row_of id db ≡ some r)
      × (r.status ≡ DeliveryStatus.uncertain)
      × (found ≡ is_some ref)
      × (row_of id db' ≡ some (reconciled_row found ref (utc_z now) r))
reconcile_settles d reconcilers id now actor reason db db' found h =
    let (answer, ran) =
      reconcile_uncertain-answer d reconcilers id now actor reason db db' found h in
    let (ref, is, which, resolved) =
      reconcile_with-resolves d id actor reason now answer db db' found ran in
    let (r, e, uncertain_, wrote) =
      resolve_uncertain-row d id found ref actor reason now db db' tt resolved in
    (
      r,
      ref,
      e,
      uncertain_,
      which,
      written_row id (reconciled_row found ref (utc_z now)) db.deliveries db'.deliveries r
          (λ q. refl) e wrote,
    )
