-- ===== src/Output/Outbox/Refines/Recovery.antt =====
-- The recovery of abandoned claims moves every delivery by a step of `RowStep`.
use mathlib.Core.Option
use trading_ai_pipeline.Base.{
  ℕ, ◌≡◌, refl, String, Bool, true, Option, none, some, List, [], ◌∷◌, Bool-cases, Option-cases,
  inl, inr, arith, any, select, str_eq, if◌then◌else◌,
}
use trading_ai_pipeline.Base.Table.{find-update, find-select, Unique, Unique-update}
use trading_ai_pipeline.Output.Stamp.{Time, Stamp, utc_z, minus_seconds}
use trading_ai_pipeline.Output.Rows.{Delivery, Digest, Db, ok}
use trading_ai_pipeline.Output.Outbox.Recover.{
  is_abandoned, abandoned_row, abandon, recover_rows, recover_abandoned,
}
use trading_ai_pipeline.Output.Outbox.RowStep.{RowStep}
use trading_ai_pipeline.Output.Outbox.Refines.{row_of, HasKeys, Moves}

abbrev pub is_row : String → Delivery → Bool
is_row j q = str_eq q.delivery_id j

abandon_twice :
    (now : Stamp) (o : Option Delivery)
    → Option.map (abandoned_row now) (Option.map (abandoned_row now) o)
      ≡ Option.map (abandoned_row now) o
abandon_twice now none = refl
abandon_twice now (some r) = refl

-- The loop abandons the deliveries that it is given, and leaves the others alone.
pub row_of-recover_rows :
    (now : Stamp) (j : String) (rows : List Delivery) (db : Db)
    → row_of j (recover_rows now rows db)
      ≡ (if any (is_row j) rows then Option.map (abandoned_row now) (row_of j db) else row_of j db)
unfolding recover_rows abandon
row_of-recover_rows now j [] db = refl
row_of-recover_rows now j (r ∷ rows) db = ground (
  arith,
  row_of-recover_rows now j rows (abandon r.delivery_id now db),
  find-update Delivery.delivery_id r.delivery_id j (abandoned_row now) db.deliveries (λ q. refl),
  abandon_twice now (row_of j db),
)

recover_rows-HasKeys :
    (now : Stamp) (rows : List Delivery) (db : Db) → HasKeys db → HasKeys (recover_rows now rows db)
unfolding recover_rows abandon
recover_rows-HasKeys now [] db u = u
recover_rows-HasKeys now (r ∷ rows) db u =
    recover_rows-HasKeys now rows (abandon r.delivery_id now db) (
      Unique-update Delivery.delivery_id r.delivery_id (abandoned_row now) db.deliveries (λ q. refl)
        u)

module _ (d : Digest) (now : Time) (timeout : ℕ) where
  recovered_row :
      (cutoff stamp : Stamp) (db : Db) (j : String)
      → Unique Delivery.delivery_id db.deliveries
      → RowStep d
          (row_of j db)
          (row_of j (recover_rows stamp (select (is_abandoned cutoff) db.deliveries) db))
  recovered_row cutoff stamp db j u =
      elim (Bool-cases (any (is_row j) (select (is_abandoned cutoff) db.deliveries))) [
        | inr other ↦ rw (row_of-recover_rows, other) RowStep.stay
        | inl hit ↦ elim (Option-cases (row_of j db)) [
          | inl missing ↦ rw (row_of-recover_rows, hit, missing) RowStep.stay
          | inr (r, e) ↦
              let old : is_abandoned cutoff r ≡ true =
                find-select Delivery.delivery_id (is_abandoned cutoff) j db.deliveries r u e hit in
              rw (row_of-recover_rows, hit, e) (RowStep.abandon r stamp (ground arith))
        ]
      ]

  pub recover_abandoned-Moves :
      (db db' : Db) (n : ℕ)
      → Unique Delivery.delivery_id db.deliveries
      → recover_abandoned now timeout db ≡ ok (n, db')
      → Moves d db db'
  unfolding recover_abandoned
  recover_abandoned-Moves db db' n u h = elim (Option-cases (minus_seconds now timeout)) [
    | inl early ↦ absurd (ground arith)
    | inr (cutoff, e) ↦
        let result : db'
            ≡ recover_rows (utc_z now) (select (is_abandoned (utc_z cutoff)) db.deliveries) db =
          ground arith in
        record {
          row = λ j. rw result (recovered_row (utc_z cutoff) (utc_z now) db j u);
          keys = λ v. rw result (
              recover_rows-HasKeys (utc_z now) (select (is_abandoned (utc_z cutoff)) db.deliveries)
                db v);
        }
  ]
