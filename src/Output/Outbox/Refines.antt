-- ===== src/Output/Outbox/Refines.antt =====
-- Every transaction of the store moves every delivery by a step of `RowStep`: the claim and its end.
-- The other transactions are in the children.
pub mod Operators
pub mod Recovery
pub mod Creation
use trading_ai_pipeline.Base.{
  ℕ, suc, ◌+◌, ◌≤◌, ◌≡◌, refl, sym, ◌∙◌, ap, String, Bool, true, false, ◌||◌, Option, none, some,
  leb, List, [], ◌∷◌, Bool-cases, Option-cases, inl, inr, str_eq, str_eq_iff, arith, if◌then◌else◌,
  any, select,
}
use trading_ai_pipeline.Base.Text.{Text}
use trading_ai_pipeline.Base.Table.{
  find, update, find-update, find-key, Unique, Unique-update, find-select,
}
use trading_ai_pipeline.Output.Stamp.{Time, Stamp, utc_z}
use trading_ai_pipeline.Output.Rows.{
  DeliveryStatus, Delivery, RendererResult, ThesisDocument, Digest, Db, Result, ok, err,
  is_completed, is_claimed, Part, stable_id,
}
use trading_ai_pipeline.Output.Outbox.Claim.{
  is_withheld, retry_later, retry_exhausted, claimed_row, insert_attempt, new_attempt, max_attempt,
  claim_token, start_attempt, claim_row, claim,
}
use trading_ai_pipeline.Output.Outbox.Finish.{
  holds_claim, finished_row, reported, finish, retry_time,
}
use trading_ai_pipeline.Output.Outbox.Recover.{abandoned_row}
use trading_ai_pipeline.Output.Outbox.Admin.{reset_row, is_uncertain, reconciled_row}
use trading_ai_pipeline.Output.Outbox.Create.{new_delivery}
use trading_ai_pipeline.Output.Outbox.RowStep
use trading_ai_pipeline.Output.Outbox.RowStep.{RowStep}

abbrev pub row_of : String → Db → Option Delivery
row_of j db = find Delivery.delivery_id j db.deliveries

-- Two states of the store, delivery by delivery.
abbrev pub HasKeys : Db → Type 0
HasKeys db = Unique Delivery.delivery_id db.deliveries

-- It takes every delivery by a step of `RowStep`, and keeps the primary key.
pub record Moves (d : Digest) (db db' : Db) : Type 0 where
  pub row : (j : String) → RowStep d (row_of j db) (row_of j db')
  pub keys : HasKeys db → HasKeys db'

module _ (d : Digest) where
  update-RowStep :
      (id : String) (f : Delivery → Delivery) (rows : List Delivery) (r : Delivery)
      → ((q : Delivery) → Delivery.delivery_id (f q) ≡ Delivery.delivery_id q)
      → find Delivery.delivery_id id rows ≡ some r
      → RowStep d (some r) (some (f r))
      → (j : String)
      → RowStep d
          (find Delivery.delivery_id j rows)
          (find Delivery.delivery_id j (update Delivery.delivery_id id f rows))
  update-RowStep id f rows r keep e step j = elim (Bool-cases (str_eq id j)) [
    | inl same ↦
        let k : id ≡ j = (str_eq_iff id j).0 same in
        rw (find-update Delivery.delivery_id id j f rows keep, same, ← k, e) step
    | inr other ↦ rw (find-update Delivery.delivery_id id j f rows keep, other) RowStep.stay
  ]

  -- A transaction that leaves the deliveries alone, and one that writes a single delivery.
  pub unwritten-Moves : (db db' : Db) → db'.deliveries ≡ db.deliveries → Moves d db db'
  unwritten-Moves db db' same = record { row = λ j. rw same RowStep.stay; keys = λ u. rw same u }

  pub written-Moves :
      (id : String) (f : Delivery → Delivery) (r : Delivery) (db db' : Db)
      → ((q : Delivery) → Delivery.delivery_id (f q) ≡ Delivery.delivery_id q)
      → row_of id db ≡ some r
      → RowStep d (some r) (some (f r))
      → db'.deliveries ≡ update Delivery.delivery_id id f db.deliveries
      → Moves d db db'
  written-Moves id f r db db' keep e step wrote = record {
    row = λ j. rw wrote (update-RowStep id f db.deliveries r keep e step j);
    keys = λ u. rw wrote (Unique-update Delivery.delivery_id id f db.deliveries keep u);
  }

  pub start_attempt-deliveries :
      (id worker : String) (now : Stamp) (row : Delivery) (db : Db) {res : Option (String × String)}
      {db' : Db}
      → start_attempt d id worker now row db ≡ ok (res, db')
      → db'.deliveries
        ≡ update Delivery.delivery_id id
            (claimed_row (row.attempt_count + 1) now worker (claim_token d id worker now db))
            db.deliveries
  unfolding start_attempt
  start_attempt-deliveries id worker now row db h = ground arith

  claim_row-Moves :
      (id worker : String) (now : Time) (limit : ℕ) (row : Delivery) (db db' : Db)
      (res : Option (String × String))
      → row_of id db ≡ some row
      → claim_row d id worker now limit row db ≡ ok (res, db')
      → Moves d db db'
  unfolding claim_row
  claim_row-Moves id worker now limit row db db' res e h =
      elim (Bool-cases (is_completed row.status || is_withheld row.status)) [
        | inl shut ↦ unwritten-Moves db db' (ground arith)
        | inr live ↦ elim (Bool-cases (leb limit row.attempt_count)) [
          | inl over ↦
              written-Moves id retry_exhausted row db db' (λ q. refl) e
                (RowStep.exhaust row (ground arith) (ground arith)) (ground arith)
          | inr under ↦ elim (Bool-cases (retry_later row.next_retry_at (utc_z now))) [
            | inl later ↦ unwritten-Moves db db' (ground arith)
            | inr due ↦
                let token = claim_token d id worker (utc_z now) db in
                let ran : start_attempt d id worker (utc_z now) row db ≡ ok (res, db') =
                  ground arith in
                written-Moves id (claimed_row (row.attempt_count + 1) (utc_z now) worker token) row
                  db db' (λ q. refl) e
                  (RowStep.start row (utc_z now) limit worker token (ground arith) (ground arith)
                    under due)
                  (start_attempt-deliveries id worker (utc_z now) row db ran)
          ]
        ]
      ]

  pub claim-Moves :
      (id worker : String) (now : Time) (limit : ℕ) (db db' : Db) (res : Option (String × String))
      → claim d id worker now limit db ≡ ok (res, db')
      → Moves d db db'
  unfolding claim
  claim-Moves id worker now limit db db' res h = elim (Option-cases (row_of id db)) [
    | inl missing ↦ absurd (ground arith)
    | inr (row, e) ↦ claim_row-Moves id worker now limit row db db' res e (ground arith)
  ]

  pub finish-Moves :
      (result : RendererResult) (token : String) (seconds : ℕ) (db db' : Db) (res : Unit {0})
      → finish result token seconds db ≡ ok (res, db')
      → Moves d db db'
  unfolding finish reported
  finish-Moves result token seconds db db' res h =
      elim (Option-cases (row_of result.delivery_id db)) [
        | inl missing ↦ absurd (ground arith)
        | inr (row, e) ↦ go row e (retry_time result.status result.timestamp seconds) refl
      ]
    where
      go :
          (row : Delivery)
          → row_of result.delivery_id db ≡ some row
          → (n : Result (Option Stamp)) → retry_time result.status result.timestamp seconds ≡ n
          → Moves d db db'
      go row e (err x) q = absurd (ground arith)
      go row e (ok next_retry) q =
          written-Moves result.delivery_id (finished_row result next_retry) row db db' (λ r. refl) e
            (RowStep.finish row result next_retry token (ground arith)) (ground arith)
