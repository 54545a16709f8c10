-- ===== src/Output/Outbox/Finish/Ownership.antt =====
-- Who may report the result of an attempt.
use trading_ai_pipeline.Base.{
  ℕ, ◌+◌, ◌≡◌, refl, String, Option, some, str_eq, str_eq_iff, arith, if◌then◌else◌,
}
use trading_ai_pipeline.Base.Table.{find, find-update}
use trading_ai_pipeline.Output.Stamp.{Time, Stamp, utc_z}
use trading_ai_pipeline.Output.Rows.{
  DeliveryStatus, Delivery, RendererResult, Digest, Db, ok, err, claim_lost,
}
use trading_ai_pipeline.Output.Outbox.Claim.{claim, claimed_row, claim_token}
use trading_ai_pipeline.Output.Outbox.Claim.Granted.{granted-IsDue}
use trading_ai_pipeline.Output.Outbox.Finish.{retry_time, finish, reported}

module _ (d : Digest) (id worker : String) (now : Time) (limit : ℕ) (db db' : Db)
    (p : String × String) where
  -- A granted claim hands out the token under which the delivery is held.
  granted-holds :
      claim d id worker now limit db ≡ ok (some p, db')
      → (r : Delivery) × (find Delivery.delivery_id id db'.deliveries ≡ some r)
        × (r.claim_token ≡ some p.1)
        × (r.status ≡ DeliveryStatus.claimed)
  granted-holds h =
      let (r, e, due, wrote, ids) = granted-IsDue d id worker now limit db db' p h in
      let f =
        claimed_row (r.attempt_count + 1) (utc_z now) worker
          (claim_token d id worker (utc_z now) db) in
      let held : find Delivery.delivery_id id db'.deliveries ≡ some (f r) =
        rw
          (
            wrote,
            find-update Delivery.delivery_id id id f db.deliveries (λ q. refl),
            e,
            (str_eq_iff id id).1 refl,
          )
          refl in
      (f r, held, rw ids refl, refl)

  -- After a granted claim, a report on the delivery (its retry time being a date that exists) is
  -- accepted exactly under the token of that claim, and is refused as `claim_lost` under another.
  pub claim-finish :
      (result : RendererResult) (token : String) (seconds : ℕ) (next_retry : Option Stamp)
      → claim d id worker now limit db ≡ ok (some p, db')
      → result.delivery_id ≡ id
      → retry_time result.status result.timestamp seconds ≡ ok next_retry
      → finish result token seconds db'
        ≡ (if str_eq p.1 token then ok (tt, reported result next_retry db') else err claim_lost)
  unfolding finish
  claim-finish result token seconds next_retry h same e =
      let (r, held, own, status) = granted-holds h in
      let there : find Delivery.delivery_id result.delivery_id db'.deliveries ≡ some r =
        rw same held in
      ground arith
