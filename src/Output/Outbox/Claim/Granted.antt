-- ===== src/Output/Outbox/Claim/Granted.antt =====
-- When a claim is granted, and what it excludes.
use trading_ai_pipeline.Base.{
  ℕ, ◌+◌, ◌<◌, ◌≡◌, ◌⊎◌, refl, String, false, ◌&&◌, none, some, List, [], ◌∷◌, ◌==◌, any, str_eq,
  str_eq_iff, arith, Option-cases, inl, inr,
}
use trading_ai_pipeline.Base.Table.{find, update, find-update}
use trading_ai_pipeline.Output.Stamp.{Time, Stamp, utc_z}
use trading_ai_pipeline.Output.Rows.{DeliveryStatus, Delivery, Attempt, Digest, Db, ok}
use trading_ai_pipeline.Output.Outbox.Claim.{
  retry_later, claimed_row, next_number, attempt_id, claim_token, insert_attempt, new_attempt,
  max_attempt, start_attempt, claim_row, claim,
}

-- A delivery that may be claimed now: it waits for a first or a further attempt, has attempts left,
-- and its retry time has come.
pub record IsDue (now : Time) (limit : ℕ) (r : Delivery) : Type 0 where
  pub waiting : (r.status ≡ DeliveryStatus.pending) ⊎ (r.status ≡ DeliveryStatus.retryable_failed)
  pub attempts_left : r.attempt_count < limit
  pub retry_due : retry_later r.next_retry_at (utc_z now) ≡ false

-- The state after a granted claim.
abbrev pub granted : Digest → String → String → Stamp → Delivery → Db → Db
granted d id worker now r db = record db {
  deliveries =
      update Delivery.delivery_id id
        (claimed_row (r.attempt_count + 1) now worker (claim_token d id worker now db))
        db.deliveries;
  attempts =
      new_attempt (attempt_id d id (next_number id db.attempts)) id (next_number id db.attempts) now
      ∷ db.attempts;
}

-- No attempt has a number above the largest.
number_is_new :
    (id : String) (n : ℕ) (rows : List Attempt)
    → max_attempt id rows < n
    → any (λ r. str_eq r.delivery_id id && r.attempt_number == n) rows ≡ false
unfolding max_attempt
number_is_new id n [] h = refl
number_is_new id n (a ∷ rest) h = ground (arith, number_is_new id n rest)

module _ (d : Digest) (id worker : String) (now : Time) (limit : ℕ) (r : Delivery) (db : Db) where
  start_attempt_lem :
      find Attempt.attempt_id (attempt_id d id (next_number id db.attempts)) db.attempts ≡ none
      → start_attempt d id worker (utc_z now) r db
        ≡ ok (
          some (
            attempt_id d id (next_number id db.attempts),
            claim_token d id worker (utc_z now) db,
          ),
          granted d id worker (utc_z now) r db,
        )
  unfolding start_attempt insert_attempt
  start_attempt_lem fresh =
      ground (arith, number_is_new id (next_number id db.attempts) db.attempts (omega arith))

  -- A claim of a delivery that is due, whose attempt id is not used yet, is granted: it writes the
  -- claim into the delivery and records one new attempt.
  pub claim_due :
      find Delivery.delivery_id id db.deliveries ≡ some r
      → IsDue now limit r
      → find Attempt.attempt_id (attempt_id d id (next_number id db.attempts)) db.attempts ≡ none
      → claim d id worker now limit db
        ≡ ok (
          some (
            attempt_id d id (next_number id db.attempts),
            claim_token d id worker (utc_z now) db,
          ),
          granted d id worker (utc_z now) r db,
        )
  unfolding claim claim_row
  claim_due e due fresh =
      ground (arith, start_attempt_lem fresh, due.waiting, due.attempts_left, due.retry_due)

  start_attempt-granted :
      (p : String × String) (db' : Db)
      → start_attempt d id worker (utc_z now) r db ≡ ok (some p, db')
      → (db' ≡ granted d id worker (utc_z now) r db)
        × (p ≡ (
          attempt_id d id (next_number id db.attempts),
          claim_token d id worker (utc_z now) db,
        ))
  unfolding start_attempt insert_attempt
  start_attempt-granted p db' h = ground arith

  claim-start_attempt :
      (p : String × String) (db' : Db)
      → find Delivery.delivery_id id db.deliveries ≡ some r
      → claim d id worker now limit db ≡ ok (some p, db')
      → IsDue now limit r × (start_attempt d id worker (utc_z now) r db ≡ ok (some p, db'))
  unfolding claim claim_row
  claim-start_attempt p db' e h = (
    record { waiting = ground arith; attempts_left = ground arith; retry_due = ground arith },
    ground arith,
  )

-- A claim that is granted was of a delivery that was due, its only effect is the claim of that
-- delivery and one new attempt, and it returns the ids of both.
pub granted-IsDue :
    (d : Digest) (id worker : String) (now : Time) (limit : ℕ) (db db' : Db) (p : String × String)
    → claim d id worker now limit db ≡ ok (some p, db')
    → (r : Delivery) × (find Delivery.delivery_id id db.deliveries ≡ some r)
      × IsDue now limit r
      × (db' ≡ granted d id worker (utc_z now) r db)
      × (p ≡ (attempt_id d id (next_number id db.attempts), claim_token d id worker (utc_z now) db))
granted-IsDue d id worker now limit db db' p h =
    elim (Option-cases (find Delivery.delivery_id id db.deliveries)) [
      | inl missing ↦ absurd (unfold claim in ground arith)
      | inr (r, e) ↦
          let (due, ran) = claim-start_attempt d id worker now limit r db p db' e h in
          let (wrote, ids) = start_attempt-granted d id worker now limit r db p db' ran in
          (r, e, due, wrote, ids)
    ]

-- The row that a granted claim leaves.
pub granted_held :
    (d : Digest) (id worker : String) (now : Time) (limit : ℕ) (db db' : Db) (p : String × String)
    → claim d id worker now limit db ≡ ok (some p, db')
    → (r : Delivery) × (find Delivery.delivery_id id db'.deliveries ≡ some r)
      × (r.status ≡ DeliveryStatus.claimed)
      × (r.claim_owner ≡ some worker)
      × (r.claim_token ≡ some p.1)
granted_held d id worker now limit db db' p h =
    let (r, e, due, wrote, ids) = granted-IsDue d id worker now limit db db' p h in
    let f =
      claimed_row (r.attempt_count + 1) (utc_z now) worker
        (claim_token d id worker (utc_z now) db) in
    let held : find Delivery.delivery_id id db'.deliveries ≡ some (f r) =
      rw
        (
          wrote,
          find-update Delivery.delivery_id id id f db.deliveries (λ q. refl),
          e,
          (str_eq_iff id id).1 refl,
        )
        refl in
    (f r, held, refl, refl, rw ids refl)

pub claim-withheld :
    (d : Digest) (id other : String) (later : Time) (limit : ℕ) (db : Db) (r : Delivery)
    → find Delivery.delivery_id id db.deliveries ≡ some r
    → r.status ≡ DeliveryStatus.claimed
    → claim d id other later limit db ≡ ok (none, db)
unfolding claim claim_row
claim-withheld d id other later limit db r e c = ground (arith, e, c)
