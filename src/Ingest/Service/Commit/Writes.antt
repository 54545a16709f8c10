-- ===== src/Ingest/Service/Commit/Writes.antt =====
-- The INSERT statements of service.py, with the keys that they must keep, and the rows that the
-- transaction of an event writes. `none` is sqlite3.IntegrityError.
use trading_ai_pipeline.Base.{
  ℕ, ◌+◌, ◌-◌, ◌%◌, max, String, true, false, not, ◌&&◌, ◌||◌, List, ◌∷◌, Option, none, some,
  is_some, str_eq, if◌then◌else◌,
}
use trading_ai_pipeline.Base.Table.{find, update}
use trading_ai_pipeline.Output.Stamp.{Stamp}
use trading_ai_pipeline.Ingest.Service.Lifecycle.{EventType, Transition}
use trading_ai_pipeline.Ingest.Service.Rows.{
  Event, EventRow, SetupRow, HistoryRow, OutboxRow, OutboxStatus, DeadLetter, Processing, Status,
  Note, Db, Hashes, Ids, IngestResult, ResultCode, RuntimeReject, at, Evidence, iso, has_receipt,
}

-- The values that one delivery is committed under.
pub record Delivery : Type 0 where
  pub ids : Ids
  pub body_hash : String
  pub now_text : Stamp
  pub replay_operation_id : Option String

infixl 5 ◌>>=◌
abbrev pub ◌>>=◌ : {A B : Type 0} → Option A → (A → Option B) → Option B
none >>= f = none
some a >>= f = f a

unfoldable pub insert_processing : Processing → Db → Option Db
insert_processing p db =
    if has_receipt p.ingest_id db then some (record db { processing = p ∷ db.processing }) else none

abbrev seen_again : Stamp → String → ℕ → DeadLetter → DeadLetter
seen_again now ingest_id attempts d = record d {
  ingest_id = ingest_id;
  latest_seen_at = now;
  occurrence_count = d.occurrence_count + 1;
  attempt_count = max d.attempt_count attempts;
}

unfoldable pub dead_letter :
    Hashes
    → String
    → String
    → Stamp
    → RuntimeReject
    → Option String
    → Option String
    → ℕ
    → Db
    → Option Db
dead_letter h id ingest_id now r event_id setup_id attempts db =
    let key = h.dead_letter r.code event_id setup_id in
    let again = record db {
      dead_letters =
          update DeadLetter.dedupe_key key (seen_again now ingest_id attempts) db.dead_letters;
    } in
    let new = record db {
      dead_letters =
          record {
            dead_letter_id = id;
            dedupe_key = key;
            error_code = r.code;
            ingest_id = ingest_id;
            event_id = event_id;
            setup_id = setup_id;
            first_seen_at = now;
            latest_seen_at = now;
            occurrence_count = 1;
            attempt_count = attempts;
            replay_eligible = r.replay_eligible;
          }
          ∷ db.dead_letters;
    } in
    if is_some (find DeadLetter.dead_letter_id id db.dead_letters)
    then none
    else some (if is_some (find DeadLetter.dedupe_key key db.dead_letters) then again else new)

-- A row of the event on the way out of the transaction.
abbrev pub processed : Delivery → Event → Status → Note → Option String → Processing
processed d e status note duplicate_of = record {
  ingest_id = d.ids.ingest_id;
  recorded_at = d.now_text;
  status = status;
  event_id = some e.event_id;
  setup_id = e.setup_id;
  note = note;
  duplicate_of = duplicate_of;
  replay_operation_id = d.replay_operation_id;
}

abbrev pub result : Delivery → Event → ResultCode → ℕ → IngestResult
result d e code status = record {
  ingest_id = d.ids.ingest_id;
  result_code = code;
  http_status = status;
  event_id = some e.event_id;
  setup_id = e.setup_id;
  duplicate = false;
  dispatch_key = none;
  transition_code = none;
}

abbrev pub Outcome : Type 0
Outcome = Option (IngestResult × Db)

abbrev pub returning : IngestResult → Option Db → Outcome
returning r none = none
returning r (some db) = some (r, db)

-- The rejections that the transaction stores instead of raising.
unfoldable pub refuse :
    Hashes → Delivery → Event → RuntimeReject → Status → Option Note → Db → Outcome
refuse h d e r status code db =
    returning (record (result d e (ResultCode.refused r.code) r.status) { transition_code = code })
      (dead_letter h d.ids.dead_letter_id d.ids.ingest_id d.now_text r (some e.event_id) e.setup_id
          0 db
        >>= insert_processing (processed d e status (Note.refused r.code) none))

-- _semantic_bar_time, of an event whose bar time has been validated.
unfoldable pub semantic_bar_time : Event → Stamp
semantic_bar_time e = elim e.payload.bar_time [
  | at text ↦ text
  | _ ↦ iso (
      if str_eq e.timeframe "1m"
      then record { sec = e.occurred.sec - e.occurred.sec % 60; micro = 0 }
      else e.occurred)
]

abbrev pub evidence_of : Event → Evidence
evidence_of e = record {
  setup_id = e.setup_id;
  bar_time = semantic_bar_time e;
  event_class = e.event_class;
  event_type = e.event_type;
  hypothesis = e.hypothesis;
  path = e.path;
  payload = e.payload.canonical;
}

abbrev pub event_row : Hashes → Delivery → Event → EventRow
event_row h d e = record {
  event_id = e.event_id;
  ingest_id = d.ids.ingest_id;
  event = e;
  canonical_hash = h.canonical e.canonical;
  evidence_fingerprint = h.evidence (evidence_of e);
  created_at = d.now_text;
}

unfoldable pub insert_event : EventRow → Db → Option Db
insert_event r db =
    if has_receipt r.ingest_id db && not (is_some (find EventRow.event_id r.event_id db.events))
    then some (record db { events = r ∷ db.events })
    else none

abbrev pub state_of : Option SetupRow → Option EventType
state_of none = none
state_of (some r) = some r.lifecycle_state

abbrev pub next_version : Option SetupRow → ℕ
next_version none = 1
next_version (some r) = r.version + 1

-- ON CONFLICT(setup_id) DO UPDATE keeps the symbol.
abbrev symbol_of : Option SetupRow → Event → String
symbol_of none e = e.symbol
symbol_of (some r) e = r.symbol

abbrev pub setup_row : Hashes → Delivery → Event → String → EventType → Option SetupRow → SetupRow
setup_row h d e id next old = record {
  setup_id = id;
  symbol = symbol_of old e;
  lifecycle_state = next;
  hypothesis = e.hypothesis;
  path = e.path;
  latest_event_id = e.event_id;
  latest_occurred_at = e.occurred_at;
  latest_evidence_fingerprint = h.evidence (evidence_of e);
  version = next_version old;
  updated_at = d.now_text;
}

abbrev pub history_row :
    Hashes → Delivery → Event → String → Transition → Option SetupRow → HistoryRow
history_row h d e id t old = record {
  setup_id = id;
  event_id = e.event_id;
  previous_state = state_of old;
  next_state = t.next_state;
  transition_code = t.reason_code;
  evidence_fingerprint = h.evidence (evidence_of e);
  occurred_at = e.occurred_at;
  recorded_at = d.now_text;
}

unfoldable pub upsert_setup : SetupRow → Option SetupRow → List SetupRow → List SetupRow
upsert_setup r none rows = r ∷ rows
upsert_setup r (some old) rows =
    update SetupRow.setup_id r.setup_id (λ q. record r { setup_id = q.setup_id }) rows

-- lifecycle_state is NOT NULL.
unfoldable pub store_setup :
    Hashes
    → Delivery
    → Event
    → String
    → Transition
    → Option EventType
    → Option SetupRow
    → Db
    → Option Db
store_setup h d e id t none old db = none
store_setup h d e id t (some next) old db = some (record db {
  setups = upsert_setup (setup_row h d e id next old) old db.setups;
  history = history_row h d e id t old ∷ db.history;
})

abbrev pub dispatch_key_of : Hashes → Event → String
dispatch_key_of h e = h.dispatch e.setup_id (h.evidence (evidence_of e))

abbrev pub outbox_row : Hashes → Delivery → Event → String → OutboxRow
outbox_row h d e id = record {
  outbox_id = d.ids.outbox_id;
  dispatch_key = dispatch_key_of h e;
  event_id = e.event_id;
  setup_id = id;
  event = e;
  status = OutboxStatus.pending;
  attempt_count = 0;
  available_at = d.now_text;
  claimed_at = none;
  claimed_by = none;
  delivered_at = none;
  release_authorized = true;
  created_at = d.now_text;
  updated_at = d.now_text;
}

-- outbox_id is the primary key and dispatch_key is UNIQUE.
unfoldable pub insert_outbox : OutboxRow → Db → Option Db
insert_outbox r db =
    if is_some (find OutboxRow.outbox_id r.outbox_id db.outbox)
      || is_some (find OutboxRow.dispatch_key r.dispatch_key db.outbox)
      || not (is_some (find EventRow.event_id r.event_id db.events))
    then none
    else some (record db { outbox = r ∷ db.outbox })
