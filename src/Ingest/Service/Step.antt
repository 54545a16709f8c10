-- ===== src/Ingest/Service/Step.antt =====
-- The service as a transition system: its steps are the calls, with what they leave in the tables.
use trading_ai_pipeline.Base.{ℕ, ◌≡◌, String, Bool, Option, some}
use trading_ai_pipeline.Output.Stamp.{Time}
use trading_ai_pipeline.Ingest.Service.Rows.{Db, Ids, IngestResult, OutboxRow, OutboxStatus}
use trading_ai_pipeline.Ingest.Service.Receive.{Setting, Request, receive}
use trading_ai_pipeline.Ingest.Service.Outbox.{
  claim_outbox, deliver_outbox, fail_outbox, recover_abandoned_claims, retry_outbox,
}

pub data Step (s : Setting) (db db' : Db) : Type 0 where
  receives :
      (ids : Ids) (now : Time) (q : Request) (r : Option IngestResult)
      → receive s ids now q db ≡ (db', r)
      → Step s db db'
  claims :
      (now : Time) (worker : String) (r : Option OutboxRow)
      → claim_outbox now worker db ≡ (r, db')
      → Step s db db'
  delivers :
      (now : Time) (id worker : String) (done : Bool)
      → deliver_outbox now id worker db ≡ (done, db')
      → Step s db db'
  fails :
      (letter_id : String) (now : Time) (id worker : String) (delay : ℕ)
      (status : Option OutboxStatus)
      → fail_outbox s.config s.hashes letter_id now id worker delay db ≡ some (status, db')
      → Step s db db'
  recovers :
      (now : Time) (n : ℕ)
      → recover_abandoned_claims s.config now db ≡ some (n, db')
      → Step s db db'
  retries :
      (now : Time) (id : String) (done : Bool)
      → retry_outbox now id db ≡ (done, db')
      → Step s db db'

pub data Run (s : Setting) (db : Db) : Db → Type 0 where
  here : Run s db db
  next : {db₁ db₂ : Db} → Run s db db₁ → Step s db₁ db₂ → Run s db db₂
