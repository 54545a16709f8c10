-- ===== src/Output/Outbox/Claim.antt =====
-- OutboxStore.claim
pub mod Granted
use trading_ai_pipeline.Base.{
  ℕ, ◌+◌, String, Bool, true, false, ◌&&◌, ◌||◌, Option, none, some, List, [], ◌∷◌, leb, ◌==◌, max,
  any, is_some, or_else, str_eq, if◌then◌else◌,
}
use trading_ai_pipeline.Base.Table.{find, update}
use trading_ai_pipeline.Output.Stamp.{Time, Stamp, utc_z, stamp_lt}
use trading_ai_pipeline.Output.Rows.{
  DeliveryStatus, Delivery, Attempt, AttemptStatus, Db, Result, ok, err, Transaction, Digest, Part,
  stable_id, is_completed, delivery_missing, integrity_error,
}

-- status IN ('TERMINAL_FAILED', 'BLOCKED_SAFETY', 'UNCERTAIN', 'CLAIMED')
abbrev pub is_withheld : DeliveryStatus → Bool
is_withheld DeliveryStatus.terminal_failed = true
is_withheld DeliveryStatus.blocked = true
is_withheld DeliveryStatus.uncertain = true
is_withheld DeliveryStatus.claimed = true
is_withheld _ = false

-- row["next_retry_at"] and row["next_retry_at"] > utc_z(now)
abbrev pub retry_later : Option Stamp → Stamp → Bool
retry_later none now = false
retry_later (some at) now = stamp_lt now at

-- SELECT COALESCE(MAX(attempt_number), 0) FROM renderer_attempts WHERE delivery_id=?
unfoldable pub max_attempt : String → List Attempt → ℕ
max_attempt id [] = 0
max_attempt id (a ∷ rest) =
    let m = max_attempt id rest in if str_eq a.delivery_id id then max a.attempt_number m else m

-- INSERT INTO renderer_attempts, under its primary key and its unique pair.
unfoldable pub insert_attempt : Attempt → List Attempt → Result (List Attempt)
insert_attempt a rows =
    if is_some (find Attempt.attempt_id a.attempt_id rows)
    then err integrity_error
    else if any (λ r. str_eq r.delivery_id a.delivery_id && r.attempt_number == a.attempt_number)
        rows
    then err integrity_error
    else ok (a ∷ rows)

-- The rows that the two UPDATE statements of `claim` write.
abbrev pub retry_exhausted : Delivery → Delivery
retry_exhausted r = record r {
  status = DeliveryStatus.terminal_failed;
  last_error_code = some "retry_limit";
}

abbrev pub claimed_row : ℕ → Stamp → String → String → Delivery → Delivery
claimed_row window stamp worker token r = record r {
  status = DeliveryStatus.claimed;
  attempt_count = window;
  first_attempt_at = or_else r.first_attempt_at (some stamp);
  latest_attempt_at = some stamp;
  next_retry_at = none;
  claim_owner = some worker;
  claim_token = some token;
  claimed_at = some stamp;
}

abbrev pub new_attempt : String → String → ℕ → Stamp → Attempt
new_attempt attempt_id delivery_id number stamp = record {
  attempt_id = attempt_id;
  delivery_id = delivery_id;
  attempt_number = number;
  started_at = stamp;
  finished_at = none;
  status = AttemptStatus.claimed;
  error_code = none;
  external_reference = none;
  result = none;
}

abbrev pub next_number : String → List Attempt → ℕ
next_number id attempts = max_attempt id attempts + 1

abbrev pub attempt_id : Digest → String → ℕ → String
attempt_id d id number = stable_id d "attempt" (Part.text id ∷ Part.num number ∷ []) 32

abbrev pub claim_token : Digest → String → String → Stamp → Db → String
claim_token d id worker now db =
    stable_id d "claim"
      (Part.text id ∷ Part.num (next_number id db.attempts) ∷ Part.text worker ∷ Part.at now ∷ [])
      32

-- The part of `claim` after its guards.
unfoldable pub start_attempt :
    Digest → String → String → Stamp → Delivery → Transaction (Option (String × String))
start_attempt d id worker stamp row db =
    let number = next_number id db.attempts in
    let attempt = attempt_id d id number in
    let token = claim_token d id worker stamp db in
    elim (insert_attempt (new_attempt attempt id number stamp) db.attempts) [
      | err e ↦ err e
      | ok attempts ↦ ok (
        some (attempt, token),
        record db {
          deliveries =
              update Delivery.delivery_id id
                (claimed_row (row.attempt_count + 1) stamp worker token) db.deliveries;
          attempts = attempts;
        },
      )
    ]

unfoldable pub claim_row :
    Digest → String → String → Time → ℕ → Delivery → Transaction (Option (String × String))
claim_row d id worker now retry_limit row db =
    if is_completed row.status || is_withheld row.status
    then ok (none, db)
    else if leb retry_limit row.attempt_count
    then ok (
      none,
      record db { deliveries = update Delivery.delivery_id id retry_exhausted db.deliveries },
    )
    else if retry_later row.next_retry_at (utc_z now)
    then ok (none, db)
    else start_attempt d id worker (utc_z now) row db

-- The result is the attempt and the claim token, or none where nothing is to be done.
unfoldable pub claim : Digest → String → String → Time → ℕ → Transaction (Option (String × String))
claim d id worker now retry_limit db = elim (find Delivery.delivery_id id db.deliveries) [
  | none ↦ err delivery_missing
  | some row ↦ claim_row d id worker now retry_limit row db
]
