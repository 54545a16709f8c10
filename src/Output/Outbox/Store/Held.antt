-- ===== src/Output/Outbox/Store/Held.antt =====
-- A delivery that is claimed stays with its worker: what excludes every other claim, and for how long.
use trading_ai_pipeline.Base.{
  ℕ, ◌≡◌, ap, ◌∙◌, String, true, false, ◌&&◌, none, some, str_eq, arith, inl, inr,
}
use trading_ai_pipeline.Base.Table.{find}
use trading_ai_pipeline.Output.Stamp.{Time}
use trading_ai_pipeline.Output.Rows.{DeliveryStatus, Delivery, Digest, Db, ok}
use trading_ai_pipeline.Output.Outbox.Claim.{claim}
use trading_ai_pipeline.Output.Outbox.Claim.Granted.{granted_held, claim-withheld}
use trading_ai_pipeline.Output.Outbox.Admin.{record_operation}
use trading_ai_pipeline.Output.Outbox.Outcome.Again.{append_outcome-frame}
use trading_ai_pipeline.Output.Outbox.Refines.{row_of}
use trading_ai_pipeline.Output.Outbox.Refines.Creation.{create-deliveries, insert_deliveries-keep}
use trading_ai_pipeline.Output.Outbox.Store.{
  Step, creates, claims, finishes, recovers, resets, reconciles, records, appends,
}
use trading_ai_pipeline.Output.Outbox.Store.Kept.{
  is_spared, claim-held, finish-held, recover-held, reset-held, reconcile-held,
}

-- The steps that do not give the delivery back: any but the report under its token, a recovery that
-- finds its claim abandoned, and a reset of the delivery by an operator.
abbrev pub KeepsClaim : {d : Digest} {db db' : Db} → String → String → Step d db db' → Type 0
KeepsClaim id token (finishes result own seconds res h) =
    (str_eq result.delivery_id id && str_eq own token) ≡ false
KeepsClaim {db = db} id token (recovers now timeout n h) = is_spared id now timeout db ≡ true
KeepsClaim id token (resets actor reason other now res h) = str_eq other id ≡ false
KeepsClaim id token _ = Unit

-- A run of the store in which nothing gives the delivery back.
pub data HeldRun (d : Digest) (id token : String) (db : Db) : Db → Type 0 where
  here : HeldRun d id token db db
  next :
      {db1 db2 : Db}
      → HeldRun d id token db db1
      → (step : Step d db1 db2) → KeepsClaim id token step
      → HeldRun d id token db db2

module _ (d : Digest) (id : String) (r : Delivery) where
  still_held :
      (token : String) {db db' : Db} (step : Step d db db')
      → KeepsClaim id token step
      → r.status ≡ DeliveryStatus.claimed
      → r.claim_token ≡ some token
      → row_of id db ≡ some r
      → row_of id db' ≡ some r
  still_held token {db} {db'} (creates s types now res h) k c t e =
      elim (create-deliveries d s types now db db' res h) [
        | inl same ↦ ap (find Delivery.delivery_id id) same ∙ e
        | inr ran ↦ insert_deliveries-keep d s.thesis types db.deliveries db'.deliveries id r ran e
      ]
  still_held token {db} {db'} (claims i worker now limit res h) k c t e =
      claim-held d id r i worker now limit db db' res h e c
  still_held token {db} {db'} (finishes result own seconds res h) k c t e =
      finish-held d id r token own result seconds db db' res h k e t
  still_held token {db} {db'} (recovers now timeout n h) k c t e =
      recover-held d id r now timeout n db db' h k ∙ e
  still_held token {db} {db'} (resets actor reason i now res h) k c t e =
      reset-held d id r actor reason i now db db' res h k ∙ e
  still_held token {db} {db'} (reconciles actor reason i found reference now res h) k c t e =
      reconcile-held d id r actor reason i found reference now db db' res h e c
  still_held token {db} {db'} (records actor reason type now i detail res h) k c t e =
      let same : db'.deliveries ≡ db.deliveries = unfold record_operation in ground arith in
      ap (find Delivery.delivery_id id) same ∙ e
  still_held token {db} {db'} (appends library payload res h) k c t e =
      ap (find Delivery.delivery_id id)
        (ap Db.deliveries (append_outcome-frame library d payload db db' res h))
      ∙ e

  held_run :
      (token : String) {db db' : Db}
      → HeldRun d id token db db'
      → r.status ≡ DeliveryStatus.claimed
      → r.claim_token ≡ some token
      → row_of id db ≡ some r
      → row_of id db' ≡ some r
  held_run token here c t e = e
  held_run token (next run step k) c t e = still_held token step k c t (held_run token run c t e)

-- From a granted claim on, through any transactions of the store but those that give the delivery back
-- (the report on it under the token of the claim, a recovery that finds its claim old enough, a reset of
-- it by an operator): its row stays as it is, CLAIMED for the worker under that token, and every claim of it, by
-- whomever and at whatever time, returns none and changes nothing.
pub claim_excludes :
    (d : Digest) (id worker : String) (now : Time) (limit : ℕ) (db db₁ db₂ : Db)
    (p : String × String) (other : String) (later : Time) (limit' : ℕ)
    → claim d id worker now limit db ≡ ok (some p, db₁)
    → HeldRun d id p.1 db₁ db₂
    → (claim d id other later limit' db₂ ≡ ok (none, db₂))
      × ((r : Delivery) × (row_of id db₁ ≡ some r)
          × (row_of id db₂ ≡ some r)
          × (r.status ≡ DeliveryStatus.claimed)
          × (r.claim_owner ≡ some worker)
          × (r.claim_token ≡ some p.1))
claim_excludes d id worker now limit db db₁ db₂ p other later limit' h run =
    let (r, e, c, w, t) = granted_held d id worker now limit db db₁ p h in
    let stays = held_run d id r p.1 run c t e in
    (claim-withheld d id other later limit' db₂ r stays c, (r, e, stays, c, w, t))
