-- ===== src/Ingest/Service/Handover.antt =====
-- A claimed row of the outbox is delivered by the worker that claimed it, once and for good.
use mathlib.Core.Path.{subst}
use trading_ai_pipeline.Base.{
  ◌≡◌, refl, sym, ap, ◌∙◌, String, Bool, true, false, none, some, Memᴰ, select, is_some, str_eq,
  str_eq_iff, if◌then◌else◌, arith, Option-cases, inl, inr,
}
use trading_ai_pipeline.Base.Search.{first_by, first_by-select}
use trading_ai_pipeline.Base.Table.{find, find-update, Unique, Unique-update, find-Memᴰ}
use trading_ai_pipeline.Output.Stamp.{Time}
use trading_ai_pipeline.Ingest.Service.Rows.{
  OutboxRow, Db, iso, AttemptRow, claimed, AttemptOutcome,
}
use trading_ai_pipeline.Ingest.Service.Receive.{Setting}
use trading_ai_pipeline.Ingest.Service.Step.{Run}
use trading_ai_pipeline.Ingest.Service.Settled.{
  IsUntouchable, IsSettled-Run, IsSettled-IsUntouchable,
}
use trading_ai_pipeline.Ingest.Service.Outbox.{
  claim_outbox, deliver_outbox, claimable, created_before, change, claimed_row, delivered_row,
  held_row, is_processing, attempt,
}

-- The row of an id after an UPDATE of it.
pub find-change :
    (id : String) (f : OutboxRow → OutboxRow) (a : AttemptRow) (db : Db) (r : OutboxRow)
    → ((q : OutboxRow) → (f q).outbox_id ≡ q.outbox_id)
    → find OutboxRow.outbox_id id db.outbox ≡ some r
    → find OutboxRow.outbox_id id (change id f a db).outbox ≡ some (f r)
unfolding change
find-change id f a db r keep k =
    find-update OutboxRow.outbox_id id id f db.outbox keep ∙ rw ((str_eq_iff id id).1 refl, k) refl

pub claim-found :
    (now : Time) (worker : String) (db db₁ : Db) (r : OutboxRow)
    → claim_outbox now worker db ≡ (some r, db₁)
    → (r₀ : OutboxRow) × Memᴰ r₀ db.outbox
      × (claimable (iso now) r₀ ≡ true)
      × (r ≡ claimed_row (iso now) worker r₀)
      × (db₁
          ≡ change r₀.outbox_id
              (claimed_row (iso now) worker)
              (attempt r₀.outbox_id (iso now) (some worker) claimed)
              db)
unfolding claim_outbox
claim-found now worker db db₁ r q =
    elim (Option-cases (first_by created_before (select (claimable (iso now)) db.outbox))) [
      | inl k ↦ absurd (ground (arith, ap (λ o. o.0) (rw (k, claim_outbox) at q)))
      | inr (r₀, k) ↦
          let (m, due) = first_by-select created_before (claimable (iso now)) db.outbox r₀ k in
          let w = rw (k, claim_outbox) at q in
          let same : claimed_row (iso now) worker r₀ ≡ r = ground (arith, ap (λ o. o.0) w) in
          (r₀, m, due, sym same, sym (ap (λ o. o.1) w))
    ]

held_by :
    (id worker worker' : String) (db : Db) (r : OutboxRow)
    → find OutboxRow.outbox_id id db.outbox ≡ some r
    → is_processing r.status ≡ true
    → r.claimed_by ≡ some worker
    → held_row id worker' db ≡ (if str_eq worker worker' then some r else none)
unfolding held_row
held_by id worker worker' db r k p c = ground (arith, k, p, c)

deliver-held :
    (now : Time) (id worker : String) (db : Db)
    → (deliver_outbox now id worker db).0 ≡ is_some (held_row id worker db)
unfolding deliver_outbox
deliver-held now id worker db = elim (Option-cases (held_row id worker db)) [
  | inl k ↦ rw (k, deliver_outbox)
  | inr (r, k) ↦ rw (k, deliver_outbox)
]

deliver-change :
    (now : Time) (id worker : String) (db : Db) (r : OutboxRow)
    → held_row id worker db ≡ some r
    → (deliver_outbox now id worker db).1
      ≡ change id
          (delivered_row (iso now))
          (attempt id (iso now) (some worker) AttemptOutcome.delivered)
          db
unfolding deliver_outbox
deliver-change now id worker db r k = rw (k, deliver_outbox)

if_some : (b : Bool) (r : OutboxRow) → is_some (if b then some r else none) ≡ b
if_some true r = refl
if_some false r = refl

pub Unique-change :
    (id : String) (f : OutboxRow → OutboxRow) (a : AttemptRow) (db : Db)
    → ((q : OutboxRow) → (f q).outbox_id ≡ q.outbox_id)
    → Unique OutboxRow.outbox_id db.outbox
    → Unique OutboxRow.outbox_id (change id f a db).outbox
unfolding change
Unique-change id f a db keep u = Unique-update OutboxRow.outbox_id id f db.outbox keep u

-- A delivered row is out of reach for good.
delivered_for_good :
    (s : Setting) (now : Time) (id worker : String) (db db₂ : Db) (r : OutboxRow)
    → Unique OutboxRow.outbox_id db.outbox
    → find OutboxRow.outbox_id id db.outbox ≡ some r
    → held_row id worker db ≡ some r
    → Run s (deliver_outbox now id worker db).1 db₂
    → IsUntouchable id db₂
delivered_for_good s now id worker db db₂ r u k held run =
    let done = attempt id (iso now) (some worker) AttemptOutcome.delivered in
    let f : OutboxRow → OutboxRow = delivered_row (iso now) in
    let run' = subst (λ t. Run s t db₂) (deliver-change now id worker db r held) run in
    let u' = Unique-change id f done db (λ q. refl) u in
    let there = find-change id f done db r (λ q. refl) k in
    let (v, settled) = IsSettled-Run s id (f r) (change id f done db) db₂ u' run' (there, refl) in
    IsSettled-IsUntouchable id (f r) db₂ v settled

-- A claim of an outbox whose ids are a key, that returns a row: it took a row that was waiting,
-- authorised and due; the worker that claimed it, and no other, can deliver it; and when that worker
-- has delivered it, no claim, delivery, failure or retry gets hold of the row again, whatever calls of
-- the service have come between.
pub claim-deliver :
    (s : Setting) (now done_at : Time) (worker : String) (db db₁ db₂ : Db) (r : OutboxRow)
    → Unique OutboxRow.outbox_id db.outbox
    → claim_outbox now worker db ≡ (some r, db₁)
    → Run s (deliver_outbox done_at r.outbox_id worker db₁).1 db₂
    → (r₀ : OutboxRow) × Memᴰ r₀ db.outbox
      × (claimable (iso now) r₀ ≡ true)
      × (r ≡ claimed_row (iso now) worker r₀)
      × ((t : Time) (w : String) → (deliver_outbox t r.outbox_id w db₁).0 ≡ str_eq worker w)
      × IsUntouchable r.outbox_id db₂
claim-deliver s now done_at worker db db₁ db₂ r u q run =
    let (r₀, m, due, same, changed) = claim-found now worker db db₁ r q in
    let f = claimed_row (iso now) worker in
    let a = attempt r₀.outbox_id (iso now) (some worker) claimed in
    let k = find-Memᴰ OutboxRow.outbox_id r₀ db.outbox u m in
    let key : r.outbox_id ≡ r₀.outbox_id = ap (λ i. i.outbox_id) same in
    let there : find OutboxRow.outbox_id r.outbox_id db₁.outbox ≡ some (f r₀) =
      rw (changed, key) (find-change r₀.outbox_id f a db r₀ (λ i. refl) k) in
    let u₁ : Unique OutboxRow.outbox_id db₁.outbox =
      rw changed (Unique-change r₀.outbox_id f a db (λ i. refl) u) in
    let held = λ (w : String). held_by r.outbox_id worker w db₁ (f r₀) there refl refl in
    let own = held worker ∙ rw ((str_eq_iff worker worker).1 refl) in
    (
      r₀,
      m,
      due,
      same,
      (λ t w.
          deliver-held t r.outbox_id w db₁
          ∙ ap is_some (held w)
          ∙ if_some (str_eq worker w) (f r₀)),
      delivered_for_good s done_at r.outbox_id worker db₁ db₂ (f r₀) u₁ there own run,
    )
