-- ===== src/Output/Tests/Dispatch.antt =====
-- Dispatch, with a renderer that always succeeds.
use trading_ai_pipeline.Base.{◌≡◌, refl, String, none, some}
use trading_ai_pipeline.Base.Table.{find}
use trading_ai_pipeline.Output.Stamp.{Time}
use trading_ai_pipeline.Output.Rows.{ResultStatus, ok}
use trading_ai_pipeline.Output.Outbox.Finish.{retry_time, finished_row}
use trading_ai_pipeline.Output.Outbox.Create.{thesis_row, new_delivery}
use trading_ai_pipeline.Output.Outbox.Refines.{row_of}
use trading_ai_pipeline.Output.Dispatcher.{
  DeliveryContext, Rendering, returned, Renderers, Config, result, render_with, dispatch,
}
use trading_ai_pipeline.Output.Dispatcher.Attempt.{AllAddressed, dispatch_due, rendered}
use trading_ai_pipeline.Output.Tests.{
  digest, noon, submission, telegram, id, stored_db, held, found, due,
}

abbrev sends : DeliveryContext → String → Time → Rendering
sends c attempt now = returned (result c attempt ResultStatus.success now none)

abbrev renderers : Renderers
renderers kind = some sends

all_addressed : AllAddressed renderers
unfolding result
all_addressed kind render e c attempt now = let same : render ≡ sends = cc in rw same refl

abbrev config : Config
config = record { retry_limit = 3; retry_seconds = 60 }

dispatch_due_example :
    (row_of id (dispatch digest renderers config "w1" id noon stored_db).0
      ≡ some (
          finished_row
            (rendered digest renderers config "w1" id noon stored_db telegram
              (thesis_row digest submission noon))
            none
            held))
    × ((dispatch digest renderers config "w1" id noon stored_db).1
        ≡ ok (
            some (
              rendered digest renderers config "w1" id noon stored_db telegram
                (thesis_row digest submission noon))))
unfolding new_delivery
dispatch_due_example =
    dispatch_due digest renderers config "w1" id noon stored_db telegram
      (thesis_row digest submission noon) none all_addressed found due
      (unfold find thesis_row new_delivery in refl) (unfold find in refl)
      (unfold retry_time render_with result in refl)
