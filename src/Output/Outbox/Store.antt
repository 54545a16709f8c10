-- ===== src/Output/Outbox/Store.antt =====
-- The store as a transition system: a step is one transaction that commits. A transaction that
-- raises is rolled back, and is no step.
pub mod Invariant
pub mod Attempts
pub mod Canonical
pub mod Kept
pub mod Held
use trading_ai_pipeline.Base.{ℕ, ◌≡◌, String, Bool, Option, List}
use trading_ai_pipeline.Base.Text.{Text}
use trading_ai_pipeline.Output.Stamp.{Time}
use trading_ai_pipeline.Output.Rows.{Digest, RendererResult, Document, Db, ok, empty_db}
use trading_ai_pipeline.Output.Outbox.Claim.{claim}
use trading_ai_pipeline.Output.Outbox.Finish.{finish}
use trading_ai_pipeline.Output.Outbox.Recover.{recover_abandoned}
use trading_ai_pipeline.Output.Outbox.Admin.{manual_reset, resolve_uncertain, record_operation}
use trading_ai_pipeline.Output.Outbox.Outcome.{Library, Payload, append_outcome}
use trading_ai_pipeline.Output.Outbox.Create.{Submission, Created, create_thesis_and_deliveries}

pub data Step (d : Digest) (db db' : Db) : Type 0 where
  creates :
      (s : Submission) (types : List String) (now : Time) (res : Created)
      → create_thesis_and_deliveries d s types now db ≡ ok (res, db')
      → Step d db db'
  claims :
      (id worker : String) (now : Time) (limit : ℕ) (res : Option (String × String))
      → claim d id worker now limit db ≡ ok (res, db')
      → Step d db db'
  finishes :
      (result : RendererResult) (token : String) (seconds : ℕ) (res : Unit {0})
      → finish result token seconds db ≡ ok (res, db')
      → Step d db db'
  recovers :
      (now : Time) (timeout n : ℕ) → recover_abandoned now timeout db ≡ ok (n, db') → Step d db db'
  resets :
      (actor reason : Text) (id : String) (now : Time) (res : Unit {0})
      → manual_reset d id actor reason now db ≡ ok (res, db')
      → Step d db db'
  reconciles :
      (actor reason : Text) (id : String) (found : Bool) (reference : Option String) (now : Time)
      (res : Unit {0})
      → resolve_uncertain d id found reference actor reason now db ≡ ok (res, db')
      → Step d db db'
  records :
      (actor reason operation_type : Text) (now : Time) (id : Option String) (detail : Document)
      (res : String)
      → record_operation d operation_type actor reason now id detail db ≡ ok (res, db')
      → Step d db db'
  appends :
      (library : Library) (payload : Payload) (res : Bool)
      → append_outcome library d payload db ≡ ok (res, db')
      → Step d db db'

-- A run of the store.
pub data Run (d : Digest) (db : Db) : Db → Type 0 where
  here : Run d db db
  next : {db1 db2 : Db} → Run d db db1 → Step d db1 db2 → Run d db db2
