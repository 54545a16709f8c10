-- ===== src/Output/Outbox/Store/Kept.antt =====
-- What each transaction of the store leaves of a delivery that is claimed.
use trading_ai_pipeline.Base.{
  ℕ, ◌+◌, ◌≡◌, refl, sym, ap, ◌∙◌, String, Bool, true, false, not, any, select, ◌&&◌, ◌||◌, Option,
  none, some, leb, str_eq, str_eq_iff, arith, Bool-cases, Option-cases, inl, inr,
}
use trading_ai_pipeline.Base.Text.{Text}
use trading_ai_pipeline.Base.Table.{find, update, find-update}
use trading_ai_pipeline.Output.Stamp.{Time, Stamp, utc_z, minus_seconds}
use trading_ai_pipeline.Output.Rows.{
  DeliveryStatus, Delivery, RendererResult, Digest, Db, Result, ok, err, is_completed,
}
use trading_ai_pipeline.Output.Outbox.Claim.{
  is_withheld, retry_later, retry_exhausted, claimed_row, claim_token, start_attempt, claim_row,
  claim,
}
use trading_ai_pipeline.Output.Outbox.Claim.Granted.{claim-withheld}
use trading_ai_pipeline.Output.Outbox.Finish.{finish, retry_time, reported, finished_row}
use trading_ai_pipeline.Output.Outbox.Admin.{
  manual_reset, reset_delivery, reset_row, resolve_uncertain, reconcile_delivery, reconciled_row,
}
use trading_ai_pipeline.Output.Outbox.Refines.{row_of, start_attempt-deliveries}
use trading_ai_pipeline.Output.Outbox.Recover.{is_abandoned, recover_rows, recover_abandoned}
use trading_ai_pipeline.Output.Outbox.Refines.Recovery.{is_row, row_of-recover_rows}
use trading_ai_pipeline.Output.Outbox.Refines.Operators.{
  reset_delivery-deliveries, reconcile_delivery-deliveries,
}

-- A recovery of abandoned claims does not find the delivery among the claims that are old enough.
unfoldable pub is_spared : String → Time → ℕ → Db → Bool
is_spared id now timeout db = elim (minus_seconds now timeout) [
  | none ↦ true
  | some cutoff ↦ not (any (is_row id) (select (is_abandoned (utc_z cutoff)) db.deliveries))
]

other_row :
    (i id : String) (f : Delivery → Delivery) (db db' : Db)
    → ((q : Delivery) → Delivery.delivery_id (f q) ≡ Delivery.delivery_id q)
    → db'.deliveries ≡ update Delivery.delivery_id i f db.deliveries
    → str_eq i id ≡ false
    → row_of id db' ≡ row_of id db
other_row i id f db db' keep wrote other =
    ap (find Delivery.delivery_id id) wrote
    ∙ find-update Delivery.delivery_id i id f db.deliveries keep
    ∙ rw other refl

module _ (d : Digest) (id : String) (r : Delivery) where
  claim_row-other :
      (i worker : String) (now : Time) (limit : ℕ) (row : Delivery) (db db' : Db)
      (res : Option (String × String))
      → claim_row d i worker now limit row db ≡ ok (res, db')
      → str_eq i id ≡ false
      → row_of id db' ≡ row_of id db
  unfolding claim_row
  claim_row-other i worker now limit row db db' res h other =
      elim (Bool-cases (is_completed row.status || is_withheld row.status)) [
        | inl shut ↦ ap (find Delivery.delivery_id id) (ground arith)
        | inr live ↦ elim (Bool-cases (leb limit row.attempt_count)) [
          | inl over ↦ other_row i id retry_exhausted db db' (λ q. refl) (ground arith) other
          | inr under ↦ elim (Bool-cases (retry_later row.next_retry_at (utc_z now))) [
            | inl later ↦ ap (find Delivery.delivery_id id) (ground arith)
            | inr due ↦
                let token = claim_token d i worker (utc_z now) db in
                let ran : start_attempt d i worker (utc_z now) row db ≡ ok (res, db') =
                  ground arith in
                other_row i id (claimed_row (row.attempt_count + 1) (utc_z now) worker token) db db'
                  (λ q. refl) (start_attempt-deliveries d i worker (utc_z now) row db ran) other
          ]
        ]
      ]

  claim-other :
      (i worker : String) (now : Time) (limit : ℕ) (db db' : Db) (res : Option (String × String))
      → claim d i worker now limit db ≡ ok (res, db')
      → str_eq i id ≡ false
      → row_of id db' ≡ row_of id db
  unfolding claim
  claim-other i worker now limit db db' res h other = elim (Option-cases (row_of i db)) [
    | inl missing ↦ absurd (ground arith)
    | inr (row, e) ↦ claim_row-other i worker now limit row db db' res (ground arith) other
  ]

  pub claim-held :
      (i worker : String) (now : Time) (limit : ℕ) (db db' : Db) (res : Option (String × String))
      → claim d i worker now limit db ≡ ok (res, db')
      → row_of id db ≡ some r
      → r.status ≡ DeliveryStatus.claimed
      → row_of id db' ≡ some r
  claim-held i worker now limit db db' res h e c = elim (Bool-cases (str_eq i id)) [
    | inr other ↦ claim-other i worker now limit db db' res h other ∙ e
    | inl same ↦
        let k : i ≡ id = (str_eq_iff i id).0 same in
        let refused = claim-withheld d i worker now limit db r (rw k e) c in
        let unchanged : db ≡ db' = ground (arith, h, refused) in
        ap (find Delivery.delivery_id id) (ap Db.deliveries (sym unchanged)) ∙ e
  ]

  pub finish-held :
      (token own : String) (result : RendererResult) (seconds : ℕ) (db db' : Db) (res : Unit {0})
      → finish result own seconds db ≡ ok (res, db')
      → (str_eq result.delivery_id id && str_eq own token) ≡ false
      → row_of id db ≡ some r
      → r.claim_token ≡ some token
      → row_of id db' ≡ some r
  unfolding finish reported
  finish-held token own result seconds db db' res h foreign e t =
      by_time (retry_time result.status result.timestamp seconds) refl
    where
      by_time :
          (n : Result (Option Stamp))
          → retry_time result.status result.timestamp seconds ≡ n
          → row_of id db' ≡ some r
      by_time (err x) q = absurd (ground arith)
      by_time (ok at) q = elim (Bool-cases (str_eq result.delivery_id id)) [
        | inr other ↦
            other_row result.delivery_id id (finished_row result at) db db' (λ z. refl)
              (ground arith) other
            ∙ e
        | inl same ↦
            let k : result.delivery_id ≡ id = (str_eq_iff result.delivery_id id).0 same in
            let there : find Delivery.delivery_id result.delivery_id db.deliveries ≡ some r =
              rw k e in
            absurd (
              ground
                (arith, h, q, there, t, foreign, same, str_eq_iff own token, str_eq_iff token own))
      ]

  pub reset-held :
      (actor reason : Text) (i : String) (now : Time) (db db' : Db) (res : Unit {0})
      → manual_reset d i actor reason now db ≡ ok (res, db')
      → str_eq i id ≡ false
      → row_of id db' ≡ row_of id db
  unfolding manual_reset
  reset-held actor reason i now db db' res h other = elim (Option-cases (row_of i db)) [
    | inl missing ↦ absurd (ground arith)
    | inr (row, e) ↦
        let ran : reset_delivery d i actor reason (utc_z now) row db ≡ ok (res, db') =
          ground arith in
        other_row i id reset_row db db' (λ q. refl)
          (reset_delivery-deliveries d actor reason i (utc_z now) row db db' res ran) other
  ]

  pub reconcile-held :
      (actor reason : Text) (i : String) (found : Bool) (reference : Option String) (now : Time)
      (db db' : Db) (res : Unit {0})
      → resolve_uncertain d i found reference actor reason now db ≡ ok (res, db')
      → row_of id db ≡ some r
      → r.status ≡ DeliveryStatus.claimed
      → row_of id db' ≡ some r
  unfolding resolve_uncertain
  reconcile-held actor reason i found reference now db db' res h e c =
      elim (Bool-cases (str_eq i id)) [
        | inl same ↦
            let k : i ≡ id = (str_eq_iff i id).0 same in
            let there : find Delivery.delivery_id i db.deliveries ≡ some r = rw k e in
            absurd (ground (arith, h, there, c))
        | inr other ↦ elim (Option-cases (row_of i db)) [
          | inl missing ↦ absurd (ground arith)
          | inr (row, q) ↦
              let ran : reconcile_delivery d i found reference actor reason (utc_z now) db
                  ≡ ok (res, db') =
                ground arith in
              other_row i id (reconciled_row found reference (utc_z now)) db db' (λ z. refl)
                (reconcile_delivery-deliveries d actor reason i found reference (utc_z now) db db'
                  res ran)
                other
              ∙ e
        ]
      ]

  pub recover-held :
      (now : Time) (timeout n : ℕ) (db db' : Db)
      → recover_abandoned now timeout db ≡ ok (n, db')
      → is_spared id now timeout db ≡ true
      → row_of id db' ≡ row_of id db
  unfolding recover_abandoned is_spared
  recover-held now timeout n db db' h k = elim (Option-cases (minus_seconds now timeout)) [
    | inl early ↦ absurd (ground arith)
    | inr (cutoff, e) ↦
        let rows = select (is_abandoned (utc_z cutoff)) db.deliveries in
        let result : db' ≡ recover_rows (utc_z now) rows db = ground arith in
        let spared : any (is_row id) rows ≡ false = ground arith in
        ap (row_of id) result ∙ row_of-recover_rows (utc_z now) id rows db ∙ rw spared refl
  ]
