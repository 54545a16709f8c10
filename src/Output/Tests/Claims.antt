-- ===== src/Output/Tests/Claims.antt =====
-- Claims, reports and recovery.
use trading_ai_pipeline.Base.{◌≡◌, refl, true, none, some, [], ◌∷◌}
use trading_ai_pipeline.Base.Table.{find, update}
use trading_ai_pipeline.Output.Stamp.{Time, utc_z, stamp_lt, stamp_le, minus_seconds}
use trading_ai_pipeline.Output.Rows.{Db, Delivery, DeliveryStatus, ok, err, claim_lost, stable_id}
use trading_ai_pipeline.Output.Outbox.Claim.{claim, max_attempt}
use trading_ai_pipeline.Output.Outbox.Claim.Granted.{claim_due, claim-withheld}
use trading_ai_pipeline.Output.Outbox.Refines.{row_of}
use trading_ai_pipeline.Output.Outbox.Store.{claims}
use trading_ai_pipeline.Output.Outbox.Store.Held.{claim_excludes, HeldRun, here, next}
use trading_ai_pipeline.Output.Outbox.Finish.{retry_time, finish}
use trading_ai_pipeline.Output.Outbox.Finish.Ownership.{claim-finish}
use trading_ai_pipeline.Output.Outbox.Recover.{is_abandoned, recover_rows, recover_abandoned}
use trading_ai_pipeline.Output.Outbox.Recover.Lost.{recovered_claim_lost}
use trading_ai_pipeline.Output.Outbox.Create.{new_delivery}
use trading_ai_pipeline.Output.Tests.{
  digest, noon, later, telegram, id, stored_db, ticket, claimed_db, held, found, due, claimed_ok,
  held_found, report,
}

claim_due_example : claim digest id "w1" noon 3 stored_db ≡ ok (some ticket, claimed_db)
claim_due_example =
    claim_due digest id "w1" noon 3 telegram stored_db found due (unfold find in refl)

refused_ok : claim digest id "w2" later 5 claimed_db ≡ ok (none, claimed_db)
refused_ok = claim-withheld digest id "w2" later 5 claimed_db held held_found refl

refused_run : HeldRun digest id ticket.1 claimed_db claimed_db
refused_run = next here (claims id "w2" later 5 none refused_ok) tt

claim_excludes_example :
    (claim digest id "w3" later 5 claimed_db ≡ ok (none, claimed_db))
    × ((r : Delivery) × (row_of id claimed_db ≡ some r)
        × (row_of id claimed_db ≡ some r)
        × (r.status ≡ DeliveryStatus.claimed)
        × (r.claim_owner ≡ some "w1")
        × (r.claim_token ≡ some ticket.1))
claim_excludes_example =
    claim_excludes digest id "w1" noon 3 stored_db claimed_db claimed_db ticket "w3" later 5
      claimed_ok refused_run

claim-finish_example : finish report "stolen" 60 claimed_db ≡ err claim_lost
unfolding stable_id new_delivery
claim-finish_example =
    claim-finish digest id "w1" noon 3 stored_db claimed_db ticket report "stolen" 60 none
      claimed_ok refl (unfold retry_time in refl)

abbrev cutoff : Time
cutoff = record { sec = 63900000050; micro = 250000 }

abbrev recovered_db : Db
recovered_db = recover_rows (utc_z later) (held ∷ []) claimed_db

old : is_abandoned (utc_z cutoff) held ≡ true
unfolding utc_z stamp_le stamp_lt
old = refl

recovered_ok : recover_abandoned later 50 claimed_db ≡ ok (1, recovered_db)
unfolding recover_abandoned minus_seconds find update new_delivery stable_id max_attempt utc_z
    stamp_le stamp_lt
recovered_ok = refl

recovered_claim_lost_example : finish report ticket.1 60 recovered_db ≡ err claim_lost
recovered_claim_lost_example =
    recovered_claim_lost later cutoff 50 1 claimed_db recovered_db held id held_found
      (unfold minus_seconds in refl) old recovered_ok report ticket.1 60 none refl
      (unfold retry_time in refl)
