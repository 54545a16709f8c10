-- ===== src/Output/Dispatcher.antt =====
-- output/project_a/dispatcher.py: one delivery attempt, from its claim to its report. The renderers
-- are given to the dispatcher, and enter as a table of functions. The status sync of Notion, which
-- writes to no table of the store, is left out.
pub mod Attempt
pub mod Operator
use trading_ai_pipeline.Base.{
  ℕ, String, Bool, true, Option, none, some, List, [], ◌∷◌, str_eq, if◌then◌else◌,
}
use trading_ai_pipeline.Base.Table.{find}
use trading_ai_pipeline.Output.Stamp.{Time}
use trading_ai_pipeline.Output.Rows.{
  ResultStatus, RendererResult, ThesisRow, Delivery, Db, Result, ok, err, StoreError, Digest,
  delivery_missing,
}
use trading_ai_pipeline.Output.Outbox.Claim.{claim}
use trading_ai_pipeline.Output.Outbox.Finish.{finish}

-- models.DeliveryContext: the delivery, and the row of its Thesis.
pub record DeliveryContext : Type 0 where
  pub delivery : Delivery
  pub thesis_row : ThesisRow

-- A renderer returns a result, or raises Session5Error with a code, or another exception.
pub data Rendering : Type 0 where
  returned : RendererResult → Rendering
  session_error : String → Rendering
  other_exception : Rendering

pub record Config : Type 0 where
  pub retry_limit : ℕ
  pub retry_seconds : ℕ

abbrev pub Renderers : Type 0
Renderers = String → Option (DeliveryContext → String → Time → Rendering)

-- OutboxStore.get_context: the join over `thesis_id`, which is unique.
unfoldable pub get_context : String → Db → Result DeliveryContext
get_context id db = elim (find Delivery.delivery_id id db.deliveries) [
  | none ↦ err delivery_missing
  | some delivery ↦ elim (find ThesisRow.thesis_id delivery.thesis_id db.theses) [
    | none ↦ err delivery_missing
    | some t ↦ ok (record { delivery = delivery; thesis_row = t })
  ]
]

-- models.result, with the defaults of its keyword arguments but for `error_code`.
unfoldable pub result :
    DeliveryContext → String → ResultStatus → Time → Option String → RendererResult
result context attempt_id status now error_code = record {
  setup_id = context.thesis_row.thesis.setup_id;
  thesis_id = context.thesis_row.thesis.thesis_id;
  delivery_id = context.delivery.delivery_id;
  attempt_id = attempt_id;
  status = status;
  timestamp = now;
  dry_run = true;
  external_reference = none;
  error_code = error_code;
  detail = none;
}

-- The `try` statement: an exception of the renderer becomes a result.
abbrev pub caught : DeliveryContext → String → Time → Rendering → RendererResult
caught context attempt now (returned r) = r
caught context attempt now (session_error code) =
    result context attempt ResultStatus.blocked_safety now (some code)
caught context attempt now other_exception =
    result context attempt ResultStatus.retryable_failure now (some "renderer_exception")

unfoldable pub render_with : Renderers → DeliveryContext → String → Time → RendererResult
render_with renderers context attempt now = elim (renderers context.delivery.renderer_type) [
  | none ↦ result context attempt ResultStatus.terminal_failure now (some "renderer_not_registered")
  | some render ↦ caught context attempt now (render context attempt now)
]

-- The part of `dispatch` after the claim. The claim is committed: an error leaves it in the store.
unfoldable pub deliver :
    Renderers → Config → String → Time → String × String → Db → Db × Result (Option RendererResult)
deliver renderers config id now claimed db = elim (get_context id db) [
  | err e ↦ (db, err e)
  | ok context ↦
      let rendered = render_with renderers context claimed.0 now in
      elim (finish rendered claimed.1 config.retry_seconds db) [
        | err e ↦ (db, err e)
        | ok (_, db') ↦ (db', ok (some rendered))
      ]
]

unfoldable pub dispatch :
    Digest → Renderers → Config → String → String → Time → Db → Db × Result (Option RendererResult)
dispatch d renderers config worker id now db = elim (claim d id worker now config.retry_limit db) [
  | err e ↦ (db, err e)
  | ok (none, db') ↦ (db', ok none)
  | ok (some claimed, db') ↦ deliver renderers config id now claimed db'
]
