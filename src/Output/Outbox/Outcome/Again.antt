-- ===== src/Output/Outbox/Outcome/Again.antt =====
-- Appending an outcome twice, and what appending leaves alone.
use trading_ai_pipeline.Base.{
  ℕ, ◌≡◌, ◌⊎◌, refl, Bool, true, false, [], ◌∷◌, str_eq_iff, arith, inl, inr,
}
use trading_ai_pipeline.Base.Table.{find}
use trading_ai_pipeline.Output.Rows.{OutcomeRow, Digest, Db, Result, ok, err, StoreError}
use trading_ai_pipeline.Output.Outbox.Outcome.{
  Library, Payload, Fields, object, no_object, validate, outcome_row, insert_outcome, store_outcome,
  append_outcome,
}

pub Result-cases :
    {A : Type 0} (r : Result A) → ((a : A) × (r ≡ ok a)) ⊎ ((e : StoreError) × (r ≡ err e))
Result-cases (ok a) = inl (a, refl)
Result-cases (err e) = inr (e, refl)

store_outcome-written :
    (library : Library) (t : ℕ) (row : OutcomeRow) (db db' : Db) (res : Bool)
    → store_outcome library t row db ≡ ok (res, db')
    → ((res ≡ true) × (db' ≡ record db { outcomes = row ∷ db.outcomes }))
      ⊎ ((res ≡ false) × (db' ≡ db))
unfolding store_outcome insert_outcome
store_outcome-written library t row db db' res h = ground arith

-- An outcome that is appended was valid, and went into the transaction.
append_outcome-store :
    (library : Library) (d : Digest) (payload : Payload) (db db' : Db) (res : Bool)
    → append_outcome library d payload db ≡ ok (res, db')
    → (fields : Fields) × (t : ℕ) × (payload ≡ object fields)
      × (validate library fields ≡ ok t)
      × (store_outcome library t (outcome_row library d fields) db ≡ ok (res, db'))
unfolding append_outcome
append_outcome-store library d no_object db db' res h = absurd (ground arith)
append_outcome-store library d (object fields) db db' res h =
    elim (Result-cases (validate library fields)) [
      | inr (e, bad) ↦ absurd (ground arith)
      | inl (t, good) ↦ (fields, t, refl, good, ground arith)
    ]

-- An append writes to the history only.
pub append_outcome-frame :
    (library : Library) (d : Digest) (payload : Payload) (db db' : Db) (res : Bool)
    → append_outcome library d payload db ≡ ok (res, db')
    → record db' { outcomes = [] } ≡ record db { outcomes = [] }
append_outcome-frame library d payload db db' res h =
    let (fields, t, is, good, stored) = append_outcome-store library d payload db db' res h in
    elim (store_outcome-written library t (outcome_row library d fields) db db' res stored) [
      | inl (r, wrote) ↦ rw wrote refl
      | inr (r, kept) ↦ rw kept refl
    ]

store_outcome-again :
    (library : Library) (t : ℕ) (row : OutcomeRow) (db db' : Db)
    → store_outcome library t row db ≡ ok (true, db')
    → store_outcome library t row db' ≡ ok (false, db')
unfolding store_outcome find
store_outcome-again library t row db db' h =
    elim (store_outcome-written library t row db db' true h) [
      | inl (r, wrote) ↦
          ground
            (arith, str_eq_iff row.event_id row.event_id, str_eq_iff row.event_hash row.event_hash)
      | inr (r, kept) ↦ absurd (ground arith)
    ]

-- An outcome that was appended can be sent again: the answer is that it is there already, and
-- nothing changes.
pub append_again :
    (library : Library) (d : Digest) (payload : Payload) (db db' : Db)
    → append_outcome library d payload db ≡ ok (true, db')
    → append_outcome library d payload db' ≡ ok (false, db')
append_again library d payload db db' h =
    let (fields, t, is, good, stored) = append_outcome-store library d payload db db' true h in
    let again = store_outcome-again library t (outcome_row library d fields) db db' stored in
    rw is (unfold append_outcome in ground (arith, good, again))
