-- ===== src/Ingest/Service/Commit.antt =====
-- _commit_validated of service.py: the transaction that stores an event.
-- `none` is sqlite3.IntegrityError, which rolls the transaction back.
pub mod Writes
use trading_ai_pipeline.Base.{
  ℕ, ◌+◌, ◌-◌, ◌%◌, max, String, Bool, true, false, not, ◌&&◌, ◌||◌, List, [], ◌∷◌, Option, none,
  some, select, last?, is_some, str_eq, if◌then◌else◌,
}
use trading_ai_pipeline.Base.Table.{find, update}
use trading_ai_pipeline.Output.Stamp.{Stamp, stamp_lt}
use trading_ai_pipeline.Ingest.Service.Lifecycle.{EventType, Transition, transition}
use trading_ai_pipeline.Ingest.Service.Rows.{
  Event, EventRow, SetupRow, HistoryRow, OutboxRow, OutboxStatus, DeadLetter, Processing, Receipt,
  Status, Note, Db, Hashes, Ids, IngestResult, ResultCode, RuntimeReject, Disposition, at, Evidence,
  iso, has_receipt, event_id_conflict, out_of_order_event, illegal_lifecycle_transition,
}
pub use trading_ai_pipeline.Ingest.Service.Commit.Writes.{
  Delivery, ◌>>=◌, processed, result, Outcome, returning, event_row, state_of, next_version,
  setup_row, history_row, outbox_row,
}
unfoldable pub use trading_ai_pipeline.Ingest.Service.Commit.Writes.{
  insert_processing, dead_letter, refuse, semantic_bar_time, insert_event, upsert_setup,
  store_setup, insert_outbox,
}
use trading_ai_pipeline.Ingest.Service.Commit.Writes.{evidence_of, dispatch_key_of}

abbrev pub conflict_reject : RuntimeReject
conflict_reject = record { code = event_id_conflict; status = 409; replay_eligible = false }

abbrev pub late_reject : RuntimeReject
late_reject = record { code = out_of_order_event; status = 409; replay_eligible = true }

abbrev pub illegal_reject : RuntimeReject
illegal_reject = record {
  code = illegal_lifecycle_transition;
  status = 409;
  replay_eligible = true;
}

unfoldable pub redeliver : Hashes → Delivery → Event → EventRow → Db → Outcome
redeliver h d e existing db =
    if str_eq existing.canonical_hash (h.canonical e.canonical)
    then returning
        (record (result d e (ResultCode.done Status.idempotent_duplicate) 200) {
          duplicate = true;
          transition_code = some Note.same_content;
        })
        (insert_processing
          (processed d e Status.idempotent_duplicate Note.same_content (some existing.ingest_id))
          db)
    else refuse h d e conflict_reject Status.conflict none db

abbrev pub is_settled : Status → Bool
is_settled Status.accepted = true
is_settled Status.recorded_rejected = true
is_settled Status.idempotent_duplicate = true
is_settled Status.duplicate_evidence = true
is_settled _ = false

abbrev pub has_body : String → Option Receipt → Bool
has_body body none = false
has_body body (some r) = str_eq r.body_hash body

abbrev pub settled_body : Delivery → Db → Processing → Bool
settled_body d db p =
    has_body d.body_hash (find Receipt.ingest_id p.ingest_id db.receipts)
    && not (str_eq p.ingest_id d.ids.ingest_id)
    && is_settled p.status

-- The oldest settled processing of another receipt with the same bytes.
unfoldable pub duplicate_body : Delivery → Db → Option Processing
duplicate_body d db = last? (select (settled_body d db) db.processing)

-- The first event with the same evidence, in the order of `created_at`.
unfoldable pub earliest : List EventRow → Option EventRow
earliest [] = none
earliest (x ∷ xs) = elim (earliest xs) [
  | none ↦ some x
  | some y ↦ some (if stamp_lt x.created_at y.created_at then x else y)
]

unfoldable pub same_evidence : Hashes → Event → Db → Option EventRow
same_evidence h e db =
    earliest (select (λ r. str_eq r.evidence_fingerprint (h.evidence (evidence_of e))) db.events)

-- The receipt that the delivery repeats, and how.
abbrev pub original : Option Processing → Option EventRow → Option (Status × String)
original (some p) _ = some (Status.duplicate_body, p.ingest_id)
original none (some r) = some (Status.duplicate_evidence, r.ingest_id)
original none none = none

unfoldable pub current : Event → Db → Option SetupRow
current e db = elim e.setup_id [ none ↦ none | some id ↦ find SetupRow.setup_id id db.setups ]

-- decision.persist_state and setup_id
unfoldable pub persist : Hashes → Delivery → Event → Transition → Option SetupRow → Db → Option Db
persist h d e t old db = elim e.setup_id [
  | none ↦ some db
  | some id ↦ if t.persist_state then store_setup h d e id t t.next_state old db else some db
]

-- setup_id is NOT NULL.
unfoldable pub enqueue : Hashes → Delivery → Event → Transition → Db → Option Db
enqueue h d e t db =
    if t.create_outbox
    then (elim e.setup_id [ none ↦ none | some id ↦ insert_outbox (outbox_row h d e id) db ])
    else some db

abbrev pub key_if : Hashes → Event → Bool → Option String
key_if h e true = some (dispatch_key_of h e)
key_if h e false = none

unfoldable pub apply : Hashes → Delivery → Event → Transition → Option SetupRow → Db → Outcome
apply h d e t old db =
    returning
      (record (result d e (ResultCode.done Status.accepted) 202) {
        dispatch_key = key_if h e t.create_outbox;
        transition_code = some (Note.moved t.reason_code);
      })
      (persist h d e t old db
        >>= enqueue h d e t
        >>= insert_processing (processed d e Status.accepted (Note.moved t.reason_code) none))

abbrev pub is_late : Event → Option SetupRow → Bool
is_late e none = false
is_late e (some r) = stamp_lt e.occurred_at r.latest_occurred_at

unfoldable pub decide : Hashes → Delivery → Event → Option SetupRow → Db → Outcome
decide h d e old db =
    let t = transition (state_of old) e.event_class e.event_type in
    if is_late e old
    then refuse h d e late_reject Status.rejected none db
    else if t.allowed
    then apply h d e t old db
    else refuse h d e illegal_reject Status.rejected (some (Note.moved t.reason_code)) db

abbrev pub is_rejected : Disposition → Bool
is_rejected Disposition.rejected = true
is_rejected _ = false

unfoldable pub process : Hashes → Delivery → Event → Option (Status × String) → Db → Outcome
process h d e (some (status, first)) db =
    returning
      (record (result d e (ResultCode.done status) 200) {
        duplicate = true;
        transition_code = some (Note.same_delivery status);
      })
      (insert_processing (processed d e status (Note.same_delivery status) (some first)) db)
process h d e none db =
    if is_rejected e.disposition
    then returning (result d e (ResultCode.done Status.recorded_rejected) 202) (
        insert_processing
          (processed d e Status.recorded_rejected (Note.disposition e.reason_code) none) db)
    else decide h d e (current e db) db

unfoldable pub commit_validated : Hashes → Delivery → Event → Db → Outcome
commit_validated h d e db = elim (find EventRow.event_id e.event_id db.events) [
  | some existing ↦ redeliver h d e existing db
  | none ↦
      insert_event (event_row h d e) db
      >>= process h d e (original (duplicate_body d db) (same_evidence h e db))
]
