-- ===== src/Output/Outbox/Outcome/Tests.antt =====
-- An outcome of a stored Thesis.
use trading_ai_pipeline.Base.{◌≡◌, refl, true, false, some, [], ◌∷◌}
use trading_ai_pipeline.Base.Int.{pos}
use trading_ai_pipeline.Base.Table.{find}
use trading_ai_pipeline.Output.Stamp.{utc_z}
use trading_ai_pipeline.Output.Rows.{Db, Digest, ThesisRow, ok, document_hash}
use trading_ai_pipeline.Output.Outbox.Outcome.{
  Library, null, str, number, Fields, object, value_of, field_error, is_safe_id, parse_utc,
  is_unordered, validate, outcome_row, latest_outcome, insert_outcome, store_outcome,
  append_outcome,
}
use trading_ai_pipeline.Output.Outbox.Outcome.Again.{append_again}

abbrev digest : Digest
digest = record { hex = λ parts n. "digest" }

abbrev library : Library
library = record { canonical_json = λ fields. "payload"; fromisoformat = λ s. some 5 }

abbrev stored_thesis : ThesisRow
stored_thesis = record {
  setup_id = "setup-1";
  thesis_id = "thesis-1";
  thesis_hash = "hash";
  request_hash = "hash";
  verdict_hash = "hash";
  request = "request";
  verdict = "verdict";
  thesis = record {
    setup_id = "setup-1";
    thesis_id = "thesis-1";
    created_at = "2025-12-05T00:00:00Z";
    canonical = "thesis";
  };
  audit_ref = "audit";
  audit_record_hash = "hash";
  audit_envelope = "envelope";
  completed_result = "result";
  finalized_at = utc_z (record { sec = 63900000000; micro = 0 });
}

abbrev db : Db
db = record {
  theses = stored_thesis ∷ [];
  deliveries = [];
  attempts = [];
  operations = [];
  outcomes = [];
}

abbrev fields : Fields
fields =
    ("event_id", str "event-1")
    ∷ ("setup_id", str "setup-1")
    ∷ ("thesis_id", str "thesis-1")
    ∷ ("recorded_at", str "2025-12-05T01:00:00Z")
    ∷ ("final_status", str "CLOSED")
    ∷ ("ticket_ref", null)
    ∷ ("requested_price", number (pos 4000))
    ∷ ("fill_price", null)
    ∷ ("spread_points", number (pos 2))
    ∷ ("slippage", null)
    ∷ ("open_time", str "2025-12-05T00:10:00Z")
    ∷ ("close_time", str "2025-12-05T00:50:00Z")
    ∷ ("exit_price", null)
    ∷ ("exit_reason", str "target")
    ∷ ("initial_risk", null)
    ∷ ("mae", null)
    ∷ ("mfe", null)
    ∷ ("realised_pl", null)
    ∷ ("realised_r", null)
    ∷ []

abbrev appended_db : Db
appended_db = record db { outcomes = outcome_row library digest fields ∷ [] }

appended : append_outcome library digest (object fields) db ≡ ok (true, appended_db)
unfolding append_outcome validate field_error value_of is_safe_id parse_utc is_unordered
    store_outcome insert_outcome latest_outcome outcome_row find document_hash
appended = refl

append_again_example :
    append_outcome library digest (object fields) appended_db ≡ ok (false, appended_db)
append_again_example = append_again library digest (object fields) db appended_db appended
