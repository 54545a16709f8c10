-- ===== src/Output/Outbox/Store/Attempts.antt =====
-- The numbers of the attempts.
use trading_ai_pipeline.Base.{
  ap, ℕ, ◌+◌, ◌≡◌, ◌⊎◌, refl, String, true, Option, List, [], ◌∷◌, str_eq, str_eq_iff, arith,
  Option-cases, select, inl, inr, if◌then◌else◌,
}
use trading_ai_pipeline.Base.Table.{update}
use trading_ai_pipeline.Output.Stamp.{Time, Stamp, utc_z, minus_seconds}
use trading_ai_pipeline.Output.Rows.{Attempt, RendererResult, Delivery, Digest, Db, ok, empty_db}
use trading_ai_pipeline.Output.Outbox.Claim.{
  max_attempt, next_number, attempt_id, new_attempt, insert_attempt, start_attempt, claim_row,
  claim,
}
use trading_ai_pipeline.Output.Outbox.Finish.{retry_time, finished_attempt, reported, finish}
use trading_ai_pipeline.Output.Outbox.Recover.{
  is_abandoned, abandon_attempts, abandon, recover_rows, recover_abandoned,
}
use trading_ai_pipeline.Output.Outbox.Admin.{
  reset_delivery, manual_reset, reconcile_delivery, resolve_uncertain, record_operation,
}
use trading_ai_pipeline.Output.Outbox.Create.{create_new, create_thesis_and_deliveries}
use trading_ai_pipeline.Output.Outbox.Outcome.Again.{append_outcome-frame}
use trading_ai_pipeline.Output.Outbox.Store.{
  Step, creates, claims, finishes, recovers, resets, reconciles, records, appends, Run, here, next,
}

-- How many attempts a delivery has had.
abbrev pub attempts_made : String → List Attempt → ℕ
attempts_made id [] = 0
attempts_made id (a ∷ rest) =
    if str_eq a.delivery_id id then attempts_made id rest + 1 else attempts_made id rest

-- Each attempt is numbered one above those before it.
abbrev pub IsNumbered : String → List Attempt → Type 0
IsNumbered id [] = Unit
IsNumbered id (a ∷ rest) =
    (str_eq a.delivery_id id ≡ true → a.attempt_number ≡ max_attempt id rest + 1)
    × IsNumbered id rest

max_attempt-made :
    (id : String) (rows : List Attempt)
    → IsNumbered id rows
    → max_attempt id rows ≡ attempts_made id rows
unfolding max_attempt
max_attempt-made id [] h = refl
max_attempt-made id (a ∷ rest) h = ground (arith, h.0, max_attempt-made id rest h.1)

-- A change of rows that leaves the ids and the numbers alone.
abbrev SameNumbers : List Attempt → List Attempt → Type 0
SameNumbers [] [] = Unit
SameNumbers (a ∷ r) (b ∷ s) =
    (b.delivery_id ≡ a.delivery_id) × (b.attempt_number ≡ a.attempt_number) × SameNumbers r s
SameNumbers _ _ = ⊥

max_attempt-SameNumbers :
    (id : String) (r s : List Attempt) → SameNumbers r s → max_attempt id s ≡ max_attempt id r
unfolding max_attempt
max_attempt-SameNumbers id [] [] h = refl
max_attempt-SameNumbers id (a ∷ r) (b ∷ s) h = ground (arith, max_attempt-SameNumbers id r s h.2)
max_attempt-SameNumbers id [] (b ∷ s) h = absurd h
max_attempt-SameNumbers id (a ∷ r) [] h = absurd h

IsNumbered-SameNumbers :
    (id : String) (r s : List Attempt) → SameNumbers r s → IsNumbered id r → IsNumbered id s
IsNumbered-SameNumbers id [] [] h n = tt
IsNumbered-SameNumbers id (a ∷ r) (b ∷ s) h n = (
  λ same. ground (arith, max_attempt-SameNumbers id r s h.2, n.0),
  IsNumbered-SameNumbers id r s h.2 n.1,
)
IsNumbered-SameNumbers id [] (b ∷ s) h n = absurd h
IsNumbered-SameNumbers id (a ∷ r) [] h n = absurd h

SameNumbers-update :
    (k : String) (result : RendererResult) (rows : List Attempt)
    → SameNumbers rows (update Attempt.attempt_id k (finished_attempt result) rows)
unfolding update
SameNumbers-update k result [] = tt
SameNumbers-update k result (a ∷ rest) =
    (ground arith, ground arith, SameNumbers-update k result rest)

SameNumbers-abandon :
    (id : String) (now : Stamp) (rows : List Attempt)
    → SameNumbers rows (abandon_attempts id now rows)
unfolding abandon_attempts
SameNumbers-abandon id now [] = tt
SameNumbers-abandon id now (a ∷ rest) =
    (ground arith, ground arith, SameNumbers-abandon id now rest)

recover_rows-IsNumbered :
    (id : String) (now : Stamp) (rows : List Delivery) (db : Db)
    → IsNumbered id db.attempts
    → IsNumbered id (recover_rows now rows db).attempts
unfolding recover_rows abandon
recover_rows-IsNumbered id now [] db n = n
recover_rows-IsNumbered id now (r ∷ rows) db n =
    recover_rows-IsNumbered id now rows (abandon r.delivery_id now db) (
      IsNumbered-SameNumbers id db.attempts (abandon_attempts r.delivery_id now db.attempts)
        (SameNumbers-abandon r.delivery_id now db.attempts) n)

claim-attempts :
    (d : Digest) (id worker : String) (now : Time) (limit : ℕ) (db db' : Db)
    (res : Option (String × String))
    → claim d id worker now limit db ≡ ok (res, db')
    → (db'.attempts ≡ db.attempts)
      ⊎ (db'.attempts
          ≡ new_attempt
              (attempt_id d id (next_number id db.attempts))
              id
              (next_number id db.attempts)
              (utc_z now)
            ∷ db.attempts)
unfolding claim claim_row start_attempt insert_attempt
claim-attempts d id worker now limit db db' res h = ground arith

recover_abandoned-IsNumbered :
    (j : String) (now : Time) (timeout n : ℕ) (db db' : Db)
    → recover_abandoned now timeout db ≡ ok (n, db')
    → IsNumbered j db.attempts
    → IsNumbered j db'.attempts
unfolding recover_abandoned
recover_abandoned-IsNumbered j now timeout n db db' h k =
    elim (Option-cases (minus_seconds now timeout)) [
      | inl early ↦ absurd (ground arith)
      | inr (cutoff, e) ↦
          let rows = select (is_abandoned (utc_z cutoff)) db.deliveries in
          let result : db' ≡ recover_rows (utc_z now) rows db = ground arith in
          rw result (recover_rows-IsNumbered j (utc_z now) rows db k)
    ]

Step-IsNumbered :
    {d : Digest} {db db' : Db} (j : String)
    → Step d db db'
    → IsNumbered j db.attempts
    → IsNumbered j db'.attempts
Step-IsNumbered {db} {db'} j (creates s types now res h) n =
    let same : db'.attempts ≡ db.attempts =
      unfold create_thesis_and_deliveries create_new in ground arith in
    rw same n
Step-IsNumbered {d} {db} {db'} j (claims id worker now limit res h) n =
    elim (claim-attempts d id worker now limit db db' res h) [
      | inl same ↦ rw same n
      | inr new ↦ rw new (λ mine. ground (arith, str_eq_iff id j), n)
    ]
Step-IsNumbered {db} {db'} j (finishes result token seconds res h) n =
    let wrote : db'.attempts
        ≡ update Attempt.attempt_id result.attempt_id (finished_attempt result) db.attempts =
      unfold finish reported retry_time in ground arith in
    rw wrote (
      IsNumbered-SameNumbers j db.attempts
        (update Attempt.attempt_id result.attempt_id (finished_attempt result) db.attempts)
        (SameNumbers-update result.attempt_id result db.attempts) n)
Step-IsNumbered {db} {db'} j (recovers now timeout count h) n =
    recover_abandoned-IsNumbered j now timeout count db db' h n
Step-IsNumbered {db} {db'} j (resets actor reason id now res h) n =
    let same : db'.attempts ≡ db.attempts = unfold manual_reset reset_delivery in ground arith in
    rw same n
Step-IsNumbered {db} {db'} j (reconciles actor reason id found reference now res h) n =
    let same : db'.attempts ≡ db.attempts =
      unfold resolve_uncertain reconcile_delivery in ground arith in
    rw same n
Step-IsNumbered {db} {db'} j (records actor reason operation_type now id detail res h) n =
    let same : db'.attempts ≡ db.attempts = unfold record_operation in ground arith in rw same n
Step-IsNumbered {d} {db} {db'} j (appends library payload res h) n =
    let same : db'.attempts ≡ db.attempts =
      ap Db.attempts (append_outcome-frame library d payload db db' res h) in
    rw same n

Run-IsNumbered :
    {d : Digest} {db db' : Db} (j : String)
    → Run d db db'
    → IsNumbered j db.attempts
    → IsNumbered j db'.attempts
Run-IsNumbered j here n = n
Run-IsNumbered j (next run step) n = Step-IsNumbered j step (Run-IsNumbered j run n)

-- In every run from the empty store each attempt of a delivery has the number above the largest
-- before it, and the largest is the number of the attempts of the delivery, also where an operator
-- has reset the count of the retry window.
pub max_attempt-Run :
    {d : Digest} {db : Db} (id : String)
    → Run d empty_db db
    → IsNumbered id db.attempts × (max_attempt id db.attempts ≡ attempts_made id db.attempts)
max_attempt-Run {db} id run =
    let numbered : IsNumbered id db.attempts = Run-IsNumbered id run tt in
    (numbered, max_attempt-made id db.attempts numbered)
