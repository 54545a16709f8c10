-- ===== src/Ingest/Service/Deliveries.antt =====
-- No delivery is lost: a call stores its bytes; it answers, and one processing row says how, unless a
-- library raises what the service does not handle.
use trading_ai_pipeline.Base.{◌⊎◌, false, ◌≡◌, String, ◌∷◌, Option, some}
use trading_ai_pipeline.Output.Stamp.{Stamp}
use trading_ai_pipeline.Ingest.Service.Rows.{Processing, Db, IngestResult, RuntimeReject}
use trading_ai_pipeline.Ingest.Service.Receive.{
  Setting, Request, Checked, raises, is_recordable, bad,
}

abbrev Silent : Db → Db → Type 0
Silent db db' = (db'.processing ≡ db.processing) × (db'.receipts ≡ db.receipts)

abbrev Logs : String → Db → Db → Type 0
Logs id db db' =
    (p : Processing) × (p.ingest_id ≡ id)
    × (db'.processing ≡ p ∷ db.processing)
    × (db'.receipts ≡ db.receipts)

-- A rejection is stored, where the id of its dead letter is new.
Answered : String → Db → Db × Option IngestResult → Type 0
Answered id db o = (db' : Db) × (r : IngestResult) × (o ≡ (db', some r)) × Logs id db db'

-- A library raised what the service does not handle: in the checks, or in the handler of a rejection.
abbrev pub IsUnhandled : Setting → Request → Checked → Type 0
IsUnhandled s q k = (k ≡ raises) ⊎ ((r : RuntimeReject) × (k ≡ bad r) × (is_recordable s q ≡ false))
