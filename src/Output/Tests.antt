-- ===== src/Output/Tests.antt =====
-- Runs of the outbox and the dispatcher on one setup with two renderers.
mod Machine
mod Claims
mod Thesis
mod Dispatch
mod Timestamps
mod Reconcile
use Prim.Native.String.{◌++◌}
use trading_ai_pipeline.Base.{
  Option, is_some, ◌≡◌, refl, String, true, false, none, some, List, [], ◌∷◌, arith, inl,
}
use trading_ai_pipeline.Base.Table.{find, update}
use trading_ai_pipeline.Output.Stamp.{Time, utc_z, stamp_lt, stamp_le, minus_seconds}
use trading_ai_pipeline.Output.Stamp.Order.{stamp_lt-utc_z, text_order_not_chronological}
use trading_ai_pipeline.Output.Rows.{
  ResultStatus, Delivery, ThesisRow, Digest, Part, Db, RendererResult, empty_db, ok, err,
  claim_lost, stable_id, document_hash,
}
use trading_ai_pipeline.Output.Outbox.Claim.{
  claim, claim_row, max_attempt, attempt_id, claim_token, claimed_row, next_number,
}
use trading_ai_pipeline.Output.Outbox.Claim.Granted.{IsDue, granted, claim_due, granted-IsDue}
use trading_ai_pipeline.Output.Outbox.Finish.{retry_time, finish, reported, finished_row}
use trading_ai_pipeline.Output.Outbox.Finish.Ownership.{claim-finish}
use trading_ai_pipeline.Output.Outbox.Recover.{is_abandoned, recover_rows, recover_abandoned}
use trading_ai_pipeline.Output.Outbox.Recover.Lost.{recovered_claim_lost}
use trading_ai_pipeline.Output.Outbox.Create.{
  Submission, Created, create_thesis_and_deliveries, create_new, insert_thesis, insert_deliveries,
  insert_delivery, thesis_row, new_delivery, deliveries_for_setup,
}
use trading_ai_pipeline.Output.Outbox.RowStep.Life.{IsConsistent}
use trading_ai_pipeline.Output.Outbox.Refines.{row_of, Moves, HasKeys}
use trading_ai_pipeline.Output.Outbox.Store.{creates, claims, finishes, Run, here, next}
use trading_ai_pipeline.Output.Outbox.Store.Invariant.{
  Step-Moves, completed_absorbing, reachable-IsConsistent, Run-HasKeys,
}
use trading_ai_pipeline.Output.Outbox.Store.Attempts.{attempts_made, max_attempt-Run}
use trading_ai_pipeline.Output.Outbox.Store.Canonical.{
  canonical_immutable, create_again, create_fans_out,
}
use trading_ai_pipeline.Output.Dispatcher.{
  DeliveryContext, Rendering, returned, Renderers, Config, result, render_with, dispatch,
}
use trading_ai_pipeline.Output.Outbox.Admin.{
  reconciled_row, insert_operation, reconcile_delivery, resolve_uncertain,
}
use trading_ai_pipeline.Base.Text.{codes, strip}
use trading_ai_pipeline.Output.Rows.{Detail, DeliveryStatus}
use trading_ai_pipeline.Output.Dispatcher.{get_context}
use trading_ai_pipeline.Output.Dispatcher.Operator.{
  Reconcilers, reference, reconcile_with, reconcile_uncertain,
}
use trading_ai_pipeline.Output.Dispatcher.Operator.Settle.{reconcile_settles}
use trading_ai_pipeline.Output.Dispatcher.Attempt.{
  AllAddressed, dispatch_due, dispatch_completed, rendered,
}

-- A digest that shows its parts.
abbrev show : List Part → String
show [] = ""
show (Part.text s ∷ rest) = s ++ ("." ++ show rest)
show (Part.num n ∷ rest) = "number." ++ show rest
show (_ ∷ rest) = show rest

abbrev pub digest : Digest
digest = record { hex = λ parts n. show parts }

abbrev pub noon : Time
noon = record { sec = 63900000000; micro = 0 }

abbrev pub later : Time
later = record { sec = 63900000100; micro = 250000 }

abbrev pub submission : Submission
submission = record {
  thesis = record {
    setup_id = "s1";
    thesis_id = "t1";
    created_at = "2025-12-05T00:00:00Z";
    canonical = "thesis";
  };
  request = "request";
  verdict = "verdict";
  audit_ref = "audit";
  audit_record_hash = "hash";
  audit_envelope = "envelope";
  completed_result = "result";
}

abbrev pub renderer_types : List String
renderer_types = "telegram" ∷ "notion" ∷ []

abbrev pub telegram : Delivery
telegram = new_delivery digest submission.thesis "telegram"

abbrev pub id : String
id = telegram.delivery_id

-- The store after the setup has been created.
abbrev pub stored_db : Db
stored_db = record {
  theses = thesis_row digest submission noon ∷ [];
  deliveries = new_delivery digest submission.thesis "notion" ∷ telegram ∷ [];
  attempts = [];
  operations = [];
  outcomes = [];
}

abbrev pub answer : Created
answer = record {
  created = true;
  thesis = submission.thesis;
  thesis_hash = document_hash digest "thesis";
  deliveries = stored_db.deliveries;
}

pub stored :
    create_thesis_and_deliveries digest submission renderer_types noon empty_db
    ≡ ok (answer, stored_db)
unfolding create_thesis_and_deliveries create_new insert_thesis insert_deliveries insert_delivery
    thesis_row new_delivery deliveries_for_setup stable_id document_hash find
stored = refl

-- The first worker has claimed the delivery to Telegram.
abbrev pub ticket : String × String
ticket =
    (attempt_id digest id (next_number id []), claim_token digest id "w1" (utc_z noon) stored_db)

abbrev pub claimed_db : Db
claimed_db = granted digest id "w1" (utc_z noon) telegram stored_db

abbrev pub held : Delivery
held = claimed_row 1 (utc_z noon) "w1" ticket.1 telegram

pub found : find Delivery.delivery_id id stored_db.deliveries ≡ some telegram
unfolding find new_delivery stable_id
found = refl

pub due : IsDue noon 3 telegram
unfolding new_delivery
due = record { waiting = inl refl; attempts_left = omega arith; retry_due = refl }

pub claimed_ok : claim digest id "w1" noon 3 stored_db ≡ ok (some ticket, claimed_db)
claimed_ok = claim_due digest id "w1" noon 3 telegram stored_db found due (unfold find in refl)

pub held_found : row_of id claimed_db ≡ some held
unfolding find update new_delivery stable_id max_attempt
held_found = refl

pub run : Run digest stored_db claimed_db
run = next here (claims id "w1" noon 3 (some ticket) claimed_ok)

pub from_empty : Run digest empty_db claimed_db
from_empty =
    next (next here (creates submission renderer_types noon answer stored))
      (claims id "w1" noon 3 (some ticket) claimed_ok)

pub has_keys : HasKeys stored_db
unfolding find new_delivery stable_id
has_keys = (refl, (refl, tt))

abbrev pub report : RendererResult
report = record {
  setup_id = "s1";
  thesis_id = "t1";
  delivery_id = id;
  attempt_id = ticket.0;
  status = ResultStatus.success;
  timestamp = later;
  dry_run = true;
  external_reference = some "message";
  error_code = none;
  detail = none;
}

abbrev pub finished_db : Db
finished_db = reported report none claimed_db

pub finished_ok : finish report ticket.1 60 claimed_db ≡ ok (tt, finished_db)
unfolding find update new_delivery stable_id max_attempt finish retry_time
finished_ok = refl
