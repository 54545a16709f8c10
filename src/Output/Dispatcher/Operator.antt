-- ===== src/Output/Dispatcher/Operator.antt =====
-- The other operations of output/project_a/dispatcher.py: the dispatch of a setup, and the
-- reconciliation of an uncertain result. The deliveries of a setup are sorted as in the source, those
-- of unknown renderers in the order of the table.
pub mod Settle
use trading_ai_pipeline.Base.{
  ℕ, String, Bool, true, false, not, ◌&&◌, ◌||◌, Option, none, some, List, [], ◌∷◌, sort_by,
  is_some, str_eq, if◌then◌else◌,
}
use trading_ai_pipeline.Base.Text.{Text}
use trading_ai_pipeline.Output.Stamp.{Time}
use trading_ai_pipeline.Output.Rows.{
  DeliveryStatus, Delivery, RendererResult, Db, Result, ok, err, StoreError, Transaction, Digest,
  not_uncertain, renderer_not_registered, reconciliation_conflict,
}
use trading_ai_pipeline.Output.Outbox.Admin.{is_uncertain, resolve_uncertain}
use trading_ai_pipeline.Output.Outbox.Create.{deliveries_for_setup}
use trading_ai_pipeline.Output.Dispatcher.{
  DeliveryContext, Config, Renderers, get_context, dispatch,
}

-- order.get(renderer_type, 99)
unfoldable pub renderer_order : String → ℕ
renderer_order kind =
    if str_eq kind "TRADINGVIEW"
    then 0
    else if str_eq kind "TELEGRAM"
    then 1
    else if str_eq kind "NOTION"
    then 2
    else if str_eq kind "MT5_DEMO"
    then 3
    else 99

-- status in {"RETRYABLE_FAILED", "TERMINAL_FAILED", "BLOCKED_SAFETY", "UNCERTAIN"}
abbrev pub is_failed : DeliveryStatus → Bool
is_failed DeliveryStatus.retryable_failed = true
is_failed DeliveryStatus.terminal_failed = true
is_failed DeliveryStatus.blocked = true
is_failed DeliveryStatus.uncertain = true
is_failed _ = false

-- The two `continue`s of the loop; a renderer type that is empty selects every renderer.
abbrev pub is_other : Option String → String → Bool
is_other none kind = false
is_other (some wanted) kind = not (str_eq wanted "") && not (str_eq kind wanted)

abbrev pub is_skipped : Option String → Bool → Delivery → Bool
is_skipped wanted failed_only r =
    is_other wanted r.renderer_type || (failed_only && not (is_failed r.status))

-- The loop: the deliveries are those read before it; an error ends it, and what was committed stays.
unfoldable pub dispatch_each :
    Digest
    → Renderers
    → Config
    → String
    → Time
    → Option String
    → Bool
    → List Delivery
    → Db
    → Db × Result (List RendererResult)
dispatch_each d renderers config worker now wanted failed_only [] db = (db, ok [])
dispatch_each d renderers config worker now wanted failed_only (r ∷ rows) db =
    if is_skipped wanted failed_only r
    then dispatch_each d renderers config worker now wanted failed_only rows db
    else let one = dispatch d renderers config worker r.delivery_id now db in
      let rest = dispatch_each d renderers config worker now wanted failed_only rows one.0 in
      elim one.1 [
        | err e ↦ (one.0, err e)
        | ok none ↦ rest
        | ok (some rendered) ↦
            (rest.0, elim rest.1 [ err e ↦ err e | ok results ↦ ok (rendered ∷ results) ])
      ]

unfoldable pub dispatch_setup :
    Digest
    → Renderers
    → Config
    → String
    → String
    → Time
    → Option String
    → Bool
    → Db
    → Db × Result (List RendererResult)
dispatch_setup d renderers config worker setup_id now renderer_type failed_only db =
    let deliveries =
      sort_by (λ r. renderer_order r.renderer_type) (deliveries_for_setup setup_id db.deliveries) in
    dispatch_each d renderers config worker now renderer_type failed_only deliveries db

-- What a renderer's `reconcile_reference` does: a reference or None, or FakeTransportError.
pub data Reconciling : Type 0 where
  reference : Option String → Reconciling
  transport_error : String → Reconciling

abbrev pub Reconcilers : Type 0
Reconcilers = String → Option (DeliveryContext → Reconciling)

unfoldable pub reconcile_with :
    Digest → String → Text → Text → Time → Reconciling → Transaction Bool
reconcile_with d id actor reason now (transport_error code) db = err (reconciliation_conflict code)
reconcile_with d id actor reason now (reference ref) db =
    elim (resolve_uncertain d id (is_some ref) ref actor reason now db) [
      | err e ↦ err e
      | ok (_, db') ↦ ok (is_some ref, db')
    ]

unfoldable pub reconcile_uncertain :
    Digest → Reconcilers → String → Time → Text → Text → Transaction Bool
reconcile_uncertain d reconcilers id now actor reason db = elim (get_context id db) [
  | err e ↦ err e
  | ok context ↦
      if not (is_uncertain context.delivery.status)
      then err not_uncertain
      else elim (reconcilers context.delivery.renderer_type) [
        | none ↦ err renderer_not_registered
        | some reconcile ↦ reconcile_with d id actor reason now (reconcile context) db
      ]
]
