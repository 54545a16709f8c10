-- ===== src/Ingest/Service/Outbox.antt =====
-- The outbox of service.py: claim_outbox, deliver_outbox, fail_outbox, retry_outbox and the outbox part
-- of recover_abandoned_claims. A worker is its bounded id; `none` is an exception, which rolls back.
use trading_ai_pipeline.Base.{
  ℕ, ◌+◌, leb, String, Bool, true, false, not, ◌&&◌, ◌||◌, List, [], ◌∷◌, Option, none, some,
  select, length, str_eq, if◌then◌else◌,
}
use trading_ai_pipeline.Base.Search.{first_by}
use trading_ai_pipeline.Base.Table.{find, update}
use trading_ai_pipeline.Base.Text.{codes}
use trading_ai_pipeline.Output.Stamp.{
  Time, Stamp, stamp_lt, stamp_le, text_lt, plus_seconds, minus_seconds,
}
use trading_ai_pipeline.Ingest.Service.Rows.{
  ProjectAConfig, OutboxRow, OutboxStatus, pending, processing, delivered, failed, AttemptRow,
  AttemptOutcome, claimed, recovered, gave_up, EventRow, Db, Hashes, RuntimeReject,
  outbox_unrecoverable, iso,
}
use trading_ai_pipeline.Ingest.Service.Commit.{dead_letter}

abbrev pub is_waiting : OutboxStatus → Bool
is_waiting pending = true
is_waiting failed = true
is_waiting _ = false

abbrev pub is_processing : OutboxStatus → Bool
is_processing processing = true
is_processing _ = false

abbrev pub is_failed : OutboxStatus → Bool
is_failed failed = true
is_failed _ = false

unfoldable pub claimable : Stamp → OutboxRow → Bool
claimable now r = is_waiting r.status && r.release_authorized && stamp_le r.available_at now

-- ORDER BY created_at,outbox_id
unfoldable pub created_before : OutboxRow → OutboxRow → Bool
created_before a b =
    stamp_lt a.created_at b.created_at
    || (not (stamp_lt b.created_at a.created_at) && text_lt (codes a.outbox_id) (codes b.outbox_id))

abbrev pub attempt : String → Stamp → Option String → AttemptOutcome → AttemptRow
attempt id now worker outcome = record {
  outbox_id = id;
  attempted_at = now;
  worker_id = worker;
  outcome = outcome;
}

unfoldable pub change : String → (OutboxRow → OutboxRow) → AttemptRow → Db → Db
change id f a db = record db {
  outbox = update OutboxRow.outbox_id id f db.outbox;
  attempts = a ∷ db.attempts;
}

abbrev pub claimed_row : Stamp → String → OutboxRow → OutboxRow
claimed_row now worker r = record r {
  status = processing;
  claimed_at = some now;
  claimed_by = some worker;
  attempt_count = r.attempt_count + 1;
  updated_at = now;
}

unfoldable pub claim_outbox : Time → String → Db → Option OutboxRow × Db
claim_outbox now worker db =
    elim (first_by created_before (select (claimable (iso now)) db.outbox)) [
      | none ↦ (none, db)
      | some r ↦ (
        some (claimed_row (iso now) worker r),
        change r.outbox_id (claimed_row (iso now) worker)
            (attempt r.outbox_id (iso now) (some worker) claimed) db,
      )
    ]

abbrev pub by_worker : String → Option String → Bool
by_worker worker none = false
by_worker worker (some w) = str_eq w worker

-- outbox_id=? AND status='PROCESSING' AND claimed_by=?
unfoldable pub held_row : String → String → Db → Option OutboxRow
held_row id worker db = elim (find OutboxRow.outbox_id id db.outbox) [
  | none ↦ none
  | some r ↦ if is_processing r.status && by_worker worker r.claimed_by then some r else none
]

abbrev pub delivered_row : Stamp → OutboxRow → OutboxRow
delivered_row now r = record r {
  status = delivered;
  delivered_at = some now;
  claimed_at = none;
  claimed_by = none;
  updated_at = now;
}

unfoldable pub deliver_outbox : Time → String → String → Db → Bool × Db
deliver_outbox now id worker db = elim (held_row id worker db) [
  | none ↦ (false, db)
  | some r ↦ (
    true,
    change id (delivered_row (iso now))
        (attempt id (iso now) (some worker) AttemptOutcome.delivered) db,
  )
]

abbrev pub failed_row : OutboxStatus → Stamp → Stamp → OutboxRow → OutboxRow
failed_row status available now r = record r {
  status = status;
  available_at = available;
  claimed_at = none;
  claimed_by = none;
  updated_at = now;
}

abbrev pub unrecoverable : RuntimeReject
unrecoverable = record { code = outbox_unrecoverable; status = 422; replay_eligible = true }

-- The dead letter names the receipt of the event.
unfoldable pub bury : Hashes → String → Stamp → OutboxRow → Db → Option Db
bury h letter_id now r db = elim (find EventRow.event_id r.event_id db.events) [
  | none ↦ none
  | some e ↦
      dead_letter h letter_id e.ingest_id now unrecoverable (some r.event_id) (some r.setup_id)
        r.attempt_count db
]

abbrev pub returning_status : OutboxStatus → Option Db → Option (Option OutboxStatus × Db)
returning_status s none = none
returning_status s (some db) = some (some s, db)

abbrev pub is_terminal_attempt : ProjectAConfig → OutboxRow → Bool
is_terminal_attempt c r = leb c.max_outbox_attempts r.attempt_count

unfoldable pub fail_row :
    ProjectAConfig
    → Hashes
    → String
    → Stamp
    → Stamp
    → String
    → OutboxRow
    → Db
    → Option (Option OutboxStatus × Db)
fail_row c h letter_id now available worker r db =
    let changed = λ (s : OutboxStatus).
      change r.outbox_id (failed_row s available now)
        (attempt r.outbox_id now (some worker) (gave_up s)) db in
    if is_terminal_attempt c r
    then returning_status OutboxStatus.dead_letter
        (bury h letter_id now r (changed OutboxStatus.dead_letter))
    else some (some failed, changed failed)

unfoldable pub fail_outbox :
    ProjectAConfig
    → Hashes
    → String
    → Time
    → String
    → String
    → ℕ
    → Db
    → Option (Option OutboxStatus × Db)
fail_outbox c h letter_id now id worker delay db = elim (held_row id worker db) [
  | none ↦ some (none, db)
  | some r ↦ elim (plus_seconds now delay) [
    | none ↦ none
    | some later ↦ fail_row c h letter_id (iso now) (iso later) worker r db
  ]
]

abbrev pub claimed_before : Stamp → Option Stamp → Bool
claimed_before cutoff none = false
claimed_before cutoff (some t) = stamp_lt t cutoff

unfoldable pub is_abandoned : Stamp → OutboxRow → Bool
is_abandoned cutoff r = is_processing r.status && claimed_before cutoff r.claimed_at

unfoldable pub recover_rows : Stamp → List OutboxRow → Db → Db
recover_rows now [] db = db
recover_rows now (r ∷ rs) db = recover_rows now rs (
    change r.outbox_id (failed_row failed now now) (attempt r.outbox_id now r.claimed_by recovered)
      db)

-- The number of claims that are recovered. recover_abandoned_transactions, on the tables of version 1,
-- has its own transaction, and is left out.
unfoldable pub recover_abandoned_claims : ProjectAConfig → Time → Db → Option (ℕ × Db)
recover_abandoned_claims c now db = elim (minus_seconds now c.claim_timeout_seconds) [
  | none ↦ none
  | some t ↦
      let rows = select (is_abandoned (iso t)) db.outbox in
      some (length rows, recover_rows (iso now) rows db)
]

abbrev pub retried_row : Stamp → OutboxRow → OutboxRow
retried_row now r = record r { status = pending; available_at = now; updated_at = now }

unfoldable pub retry_outbox : Time → String → Db → Bool × Db
retry_outbox now id db = elim (find OutboxRow.outbox_id id db.outbox) [
  | none ↦ (false, db)
  | some r ↦
      if is_failed r.status
      then (
        true,
        record db { outbox = update OutboxRow.outbox_id id (retried_row (iso now)) db.outbox },
      )
      else (false, db)
]
