-- ===== src/Output/Outbox/Store/Invariant.antt =====
-- What holds of the store in every run.
use trading_ai_pipeline.Base.{ap, ◌≡◌, String, true, some}
use trading_ai_pipeline.Base.Table.{find}
use trading_ai_pipeline.Output.Rows.{Digest, Db, Delivery, empty_db, is_completed}
use trading_ai_pipeline.Output.Outbox.RowStep.Life.{
  RowStep-completed, RowStep-IsConsistent, IsConsistent, AllConsistent,
}
use trading_ai_pipeline.Output.Outbox.Refines.{
  row_of, HasKeys, Moves, unwritten-Moves, claim-Moves, finish-Moves,
}
use trading_ai_pipeline.Output.Outbox.Refines.Operators.{
  manual_reset-Moves, resolve_uncertain-Moves, record_operation-Moves,
}
use trading_ai_pipeline.Output.Outbox.Refines.Recovery.{recover_abandoned-Moves}
use trading_ai_pipeline.Output.Outbox.Refines.Creation.{create-Moves}
use trading_ai_pipeline.Output.Outbox.Outcome.Again.{append_outcome-frame}
use trading_ai_pipeline.Output.Outbox.Store.{
  Step, creates, claims, finishes, recovers, resets, reconciles, records, appends, Run, here, next,
}

module _ {d : Digest} where
  -- A transaction that commits on a store whose delivery ids are unique takes every delivery of the
  -- store by a step of the state machine `RowStep`, and keeps the ids unique.
  pub Step-Moves : {db db' : Db} → Step d db db' → HasKeys db → Moves d db db'
  Step-Moves {db} {db'} (creates s types now res h) u = create-Moves d s types now db db' res h
  Step-Moves {db} {db'} (claims id worker now limit res h) u =
      claim-Moves d id worker now limit db db' res h
  Step-Moves {db} {db'} (finishes result token seconds res h) u =
      finish-Moves d result token seconds db db' res h
  Step-Moves {db} {db'} (recovers now timeout n h) u =
      recover_abandoned-Moves d now timeout db db' n u h
  Step-Moves {db} {db'} (resets actor reason id now res h) u =
      manual_reset-Moves d actor reason id now db db' res h
  Step-Moves {db} {db'} (reconciles actor reason id found reference now res h) u =
      resolve_uncertain-Moves d actor reason id found reference now db db' res h
  Step-Moves {db} {db'} (records actor reason operation_type now id detail res h) u =
      record_operation-Moves d actor reason operation_type now id detail db db' res h
  Step-Moves {db} {db'} (appends library payload res h) u =
      unwritten-Moves d db db'
        (ap Db.deliveries (append_outcome-frame library d payload db db' res h))

  pub Run-HasKeys : {db db' : Db} → Run d db db' → HasKeys db → HasKeys db'
  Run-HasKeys here u = u
  Run-HasKeys (next run step) u = let v = Run-HasKeys run u in (Step-Moves step v).keys v

  -- In a run of the store whose delivery ids are unique, a delivery that is SUCCEEDED or
  -- DRY_RUN_SUCCEEDED keeps its whole row: no transaction, an operator's included, writes it again.
  pub completed_absorbing :
      {db db' : Db} (j : String) (r : Delivery)
      → Run d db db'
      → HasKeys db
      → row_of j db ≡ some r
      → is_completed r.status ≡ true
      → row_of j db' ≡ some r
  completed_absorbing j r here u e c = e
  completed_absorbing j r (next run step) u e c =
      let v = Run-HasKeys run u in
      RowStep-completed r ((Step-Moves step v).row j) (completed_absorbing j r run u e c) c

  Run-AllConsistent :
      {db db' : Db} (j : String)
      → Run d db db'
      → HasKeys db
      → AllConsistent (row_of j db)
      → AllConsistent (row_of j db')
  Run-AllConsistent j here u h = h
  Run-AllConsistent j (next run step) u h =
      RowStep-IsConsistent ((Step-Moves step (Run-HasKeys run u)).row j)
        (Run-AllConsistent j run u h)

  -- In every run from the empty store, each delivery has a claim token, an owner and a claim time
  -- exactly while it is CLAIMED, a completion time once it is completed, and a first attempt once
  -- it is claimed.
  pub reachable-IsConsistent :
      {db : Db} (j : String) (r : Delivery)
      → Run d empty_db db
      → row_of j db ≡ some r
      → IsConsistent r
  reachable-IsConsistent j r run e =
      let h = Run-AllConsistent j run tt (unfold find in tt) in rw e at h
