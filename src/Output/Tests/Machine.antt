-- ===== src/Output/Tests/Machine.antt =====
-- The state machine of a delivery.
use trading_ai_pipeline.Base.{◌≡◌, refl, none, some}
use trading_ai_pipeline.Base.Table.{find, update}
use trading_ai_pipeline.Output.Rows.{ok, stable_id}
use trading_ai_pipeline.Output.Outbox.Claim.{claim, claim_row, max_attempt}
use trading_ai_pipeline.Output.Outbox.Finish.{reported, finished_row}
use trading_ai_pipeline.Output.Outbox.Create.{new_delivery}
use trading_ai_pipeline.Output.Outbox.RowStep.Life.{IsConsistent}
use trading_ai_pipeline.Output.Outbox.Refines.{row_of, Moves, HasKeys}
use trading_ai_pipeline.Output.Outbox.Store.{claims, finishes, here, next}
use trading_ai_pipeline.Output.Outbox.Store.Invariant.{
  Step-Moves, completed_absorbing, reachable-IsConsistent, Run-HasKeys,
}
use trading_ai_pipeline.Output.Outbox.Store.Attempts.{IsNumbered, attempts_made, max_attempt-Run}
use trading_ai_pipeline.Output.Tests.{
  digest, noon, later, id, stored_db, ticket, claimed_db, held, claimed_ok, held_found, run,
  from_empty, has_keys, report, finished_db, finished_ok,
}

pub completed_found : row_of id finished_db ≡ some (finished_row report none held)
unfolding find update new_delivery stable_id max_attempt reported
completed_found = refl

completed_claim : claim digest id "w2" later 3 finished_db ≡ ok (none, finished_db)
unfolding find update new_delivery stable_id max_attempt reported claim claim_row
completed_claim = refl

finished_keys : HasKeys finished_db
finished_keys = Run-HasKeys (next run (finishes report ticket.1 60 tt finished_ok)) has_keys

completed_absorbing_example : row_of id finished_db ≡ some (finished_row report none held)
completed_absorbing_example =
    completed_absorbing id (finished_row report none held)
      (next here (claims id "w2" later 3 none completed_claim)) finished_keys completed_found refl

Step-Moves_example : Moves digest stored_db claimed_db
Step-Moves_example = Step-Moves (claims id "w1" noon 3 (some ticket) claimed_ok) has_keys

reachable-IsConsistent_example : IsConsistent held
reachable-IsConsistent_example = reachable-IsConsistent id held from_empty held_found

max_attempt-Run_example :
    IsNumbered id claimed_db.attempts
    × (max_attempt id claimed_db.attempts ≡ attempts_made id claimed_db.attempts)
max_attempt-Run_example = max_attempt-Run id from_empty
