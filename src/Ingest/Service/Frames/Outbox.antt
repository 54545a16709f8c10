-- ===== src/Ingest/Service/Frames/Outbox.antt =====
-- The walk through the calls on the outbox: each of them changes active rows alone.
use mathlib.Core.Path.{subst}
use trading_ai_pipeline.Base.{
  ℕ, ◌≡◌, refl, sym, ap, ◌∙◌, String, true, List, [], ◌∷◌, Option, some, select, any, arith, str_eq,
  str_eq_iff, Bool-cases, Option-cases, inl, inr,
}
use trading_ai_pipeline.Base.Table.{
  find, find-Memᴰ, find-update, find-select, find-key, Unique-updated,
}
use trading_ai_pipeline.Base.Search.{first_by, first_by-select}
use trading_ai_pipeline.Output.Stamp.{Time, Stamp, plus_seconds, minus_seconds}
use trading_ai_pipeline.Ingest.Service.Rows.{
  Event, EventRow, OutboxRow, OutboxStatus, pending, processing, delivered, failed, gave_up, Db,
  Hashes, ProjectAConfig, AttemptRow, recovered, iso,
}
use trading_ai_pipeline.Ingest.Service.Commit.{dead_letter}
use trading_ai_pipeline.Ingest.Service.Outbox.{
  claim_outbox, deliver_outbox, fail_outbox, recover_abandoned_claims, retry_outbox, change,
  claimable, created_before, held_row, fail_row, bury, recover_rows, is_terminal_attempt,
  is_abandoned, is_failed, is_processing, is_waiting, failed_row, attempt, unrecoverable, by_worker,
}
use trading_ai_pipeline.Ingest.Service.Frames.{Frame, Touches, is_active, dead_letter-R}

processing-active : (s : OutboxStatus) → is_processing s ≡ true → is_active s ≡ true
processing-active processing e = refl
processing-active pending e = refl
processing-active failed e = refl
processing-active delivered e = absurd (ground (arith, e))
processing-active OutboxStatus.dead_letter e = absurd (ground (arith, e))

waiting-active : (s : OutboxStatus) → is_waiting s ≡ true → is_active s ≡ true
waiting-active processing e = refl
waiting-active pending e = refl
waiting-active failed e = refl
waiting-active delivered e = absurd (ground (arith, e))
waiting-active OutboxStatus.dead_letter e = absurd (ground (arith, e))

pub failed-active : (s : OutboxStatus) → is_failed s ≡ true → is_active s ≡ true
failed-active processing e = refl
failed-active pending e = refl
failed-active failed e = refl
failed-active delivered e = absurd (ground (arith, e))
failed-active OutboxStatus.dead_letter e = absurd (ground (arith, e))

-- The row that an id finds tells whether an UPDATE of it touches an active row.
found-Touches :
    (id : String) (db : Db) (r : OutboxRow)
    → find OutboxRow.outbox_id id db.outbox ≡ some r
    → is_active r.status ≡ true
    → Touches id db
found-Touches id db r k a u x e =
    let same : some r ≡ some x = sym k ∙ e in
    let w : r ≡ x = ground (arith, same) in subst (λ (q : OutboxRow). is_active q.status ≡ true) w a

pub held_row-found :
    (id worker : String) (db : Db) (r : OutboxRow)
    → held_row id worker db ≡ some r
    → (find OutboxRow.outbox_id id db.outbox ≡ some r) × (is_processing r.status ≡ true)
unfolding held_row
held_row-found id worker db r q = elim (Option-cases (find OutboxRow.outbox_id id db.outbox)) [
  | inl k ↦ absurd (ground (arith, q, k))
  | inr (x, k) ↦ elim (Bool-cases (is_processing x.status)) [
    | inr p ↦ absurd (ground (arith, q, k, p))
    | inl p ↦ elim (Bool-cases (by_worker worker x.claimed_by)) [
      | inr b ↦ absurd (ground (arith, q, k, p, b))
      | inl b ↦
          let same : x ≡ r = ground (arith, q, k, p, b) in
          (k ∙ ap some same, subst (λ (y : OutboxRow). is_processing y.status ≡ true) same p)
    ]
  ]
]

-- The rows that a recovery has still to do are active.
abbrev Due : List OutboxRow → Db → Type 0
Due rs db = (id : String) → any (λ q. str_eq q.outbox_id id) rs ≡ true → Touches id db

first_due :
    (r : OutboxRow) (rs : List OutboxRow)
    → any (λ q. str_eq q.outbox_id r.outbox_id) (r ∷ rs) ≡ true
first_due r rs = ground (arith, str_eq_iff r.outbox_id r.outbox_id)

Due-change :
    (now : Stamp) (a : AttemptRow) (r : OutboxRow) (rs : List OutboxRow) (db : Db)
    → Due (r ∷ rs) db
    → Due rs (change r.outbox_id (failed_row failed now now) a db)
unfolding change
Due-change now a r rs db due id there u x k =
    let g : OutboxRow → OutboxRow = failed_row failed now now in
    let moved = find-update OutboxRow.outbox_id r.outbox_id id g db.outbox (λ q. refl) in
    let old = Unique-updated OutboxRow.outbox_id r.outbox_id g db.outbox (λ q. refl) u in
    elim (Option-cases (find OutboxRow.outbox_id id db.outbox)) [
      | inl n ↦ absurd (ground (arith, moved, k, n))
      | inr (y, e) ↦ elim (Bool-cases (str_eq r.outbox_id id)) [
        | inl c ↦
            let w : g y ≡ x = ground (arith, moved, k, e, c) in
            subst (λ (q : OutboxRow). is_active q.status ≡ true) w refl
        | inr c ↦
            let w : y ≡ x = ground (arith, moved, k, e, c) in
            subst (λ (q : OutboxRow). is_active q.status ≡ true) w
              (due id (ground (arith, there, c)) old y e)
      ]
    ]

abandoned-Due : (cutoff : Stamp) (db : Db) → Due (select (is_abandoned cutoff) db.outbox) db
unfolding is_abandoned
abandoned-Due cutoff db id there u x k =
    let p : is_abandoned cutoff x ≡ true =
      find-select OutboxRow.outbox_id (is_abandoned cutoff) id db.outbox x u k there in
    processing-active x.status (ground (arith, p))

pub claim-Touches :
    (now : Stamp) (db : Db) (r : OutboxRow)
    → first_by created_before (select (claimable now) db.outbox) ≡ some r
    → Touches r.outbox_id db
unfolding claimable
claim-Touches now db r k u x e =
    let (m, p) = first_by-select created_before (claimable now) db.outbox r k in
    let waits : is_waiting r.status ≡ true = ground (arith, p) in
    let there = find-Memᴰ OutboxRow.outbox_id r db.outbox u m in
    found-Touches r.outbox_id db r there (waiting-active r.status waits) u x e

pub held-Touches :
    (id worker : String) (db : Db) (r : OutboxRow) → held_row id worker db ≡ some r → Touches id db
held-Touches id worker db r k =
    let (there, p) = held_row-found id worker db r k in
    found-Touches id db r there (processing-active r.status p)

module _ (V : Event → Type 0) (R : Db → Db → Type 0) (f : Frame V R) where
  pub claim_outbox-R :
      (now : Time) (worker : String) (db : Db) → R db (claim_outbox now worker db).1
  unfolding claim_outbox change
  claim_outbox-R now worker db =
      elim (Option-cases (first_by created_before (select (claimable (iso now)) db.outbox))) [
        | inl k ↦ rw (k, claim_outbox) (f.same db)
        | inr (r, k) ↦
            rw (k, claim_outbox)
              (f.changed r.outbox_id _ _ db (λ q. refl) (λ q. ground arith)
                (claim-Touches (iso now) db r k))
      ]

  pub deliver_outbox-R :
      (now : Time) (id worker : String) (db : Db) → R db (deliver_outbox now id worker db).1
  unfolding deliver_outbox change
  deliver_outbox-R now id worker db = elim (Option-cases (held_row id worker db)) [
    | inl k ↦ rw (k, deliver_outbox) (f.same db)
    | inr (r, k) ↦
        rw (k, deliver_outbox)
          (f.changed id _ _ db (λ q. refl) (λ q. ground arith) (held-Touches id worker db r k))
  ]

  pub retry_outbox-R : (now : Time) (id : String) (db : Db) → R db (retry_outbox now id db).1
  unfolding retry_outbox
  retry_outbox-R now id db = elim (Option-cases (find OutboxRow.outbox_id id db.outbox)) [
    | inl k ↦ rw (k, retry_outbox) (f.same db)
    | inr (r, k) ↦ elim (Bool-cases (is_failed r.status)) [
      | inl c ↦
          let due : Touches id db = found-Touches id db r k (failed-active r.status c) in
          rw (k, retry_outbox)
            (rw c (f.changed id _ db.attempts db (λ q. refl) (λ q. ground arith) due))
      | inr c ↦ rw (k, retry_outbox) (rw c (f.same db))
    ]
  ]

  recover_rows-R :
      (now : Stamp) (rs : List OutboxRow) (db : Db) → Due rs db → R db (recover_rows now rs db)
  unfolding recover_rows change
  recover_rows-R now [] db due = f.same db
  recover_rows-R now (r ∷ rs) db due =
      let a = attempt r.outbox_id now r.claimed_by recovered in
      f.chain db (change r.outbox_id (failed_row failed now now) a db) _
        (f.changed r.outbox_id _ _ db (λ q. refl) (λ q. ground arith)
          (due r.outbox_id (first_due r rs)))
        (recover_rows-R now rs _ (Due-change now a r rs db due))

  bury-R :
      (h : Hashes) (letter_id : String) (now : Stamp) (r : OutboxRow) (db db' : Db)
      → bury h letter_id now r db ≡ some db'
      → R db db'
  unfolding bury
  bury-R h letter_id now r db db' q =
      elim (Option-cases (find EventRow.event_id r.event_id db.events)) [
        | inl k ↦ absurd (ground (arith, q, k))
        | inr (e, k) ↦
            let w : dead_letter h letter_id e.ingest_id now unrecoverable (some r.event_id)
                  (some r.setup_id) r.attempt_count db
                ≡ some db' =
              ground (arith, q, k) in
            dead_letter-R V R f h letter_id e.ingest_id now unrecoverable _ _ r.attempt_count db db'
              w
      ]

  fail_row-R :
      (c : ProjectAConfig) (h : Hashes) (letter_id : String) (now later : Stamp) (worker : String)
      (r : OutboxRow) (db db' : Db) (status : Option OutboxStatus)
      → Touches r.outbox_id db
      → fail_row c h letter_id now later worker r db ≡ some (status, db')
      → R db db'
  unfolding fail_row change
  fail_row-R c h letter_id now later worker r db db' status due q =
      elim (Bool-cases (is_terminal_attempt c r)) [
        | inr t ↦
            let k : change r.outbox_id (failed_row failed later now)
                  (attempt r.outbox_id now (some worker) (gave_up failed)) db
                ≡ db' =
              ground (arith, q, t) in
            subst (R db) k (f.changed r.outbox_id _ _ db (λ q. refl) (λ q. ground arith) due)
        | inl t ↦
            let d : OutboxStatus = OutboxStatus.dead_letter in
            let db₁ : Db =
              change r.outbox_id (failed_row d later now)
                (attempt r.outbox_id now (some worker) (gave_up d)) db in
            f.chain db db₁ db' (f.changed r.outbox_id _ _ db (λ q. refl) (λ q. ground arith) due)
              (bury-R h letter_id now r db₁ db' (ground (arith, q, t)))
      ]

  pub fail_outbox-R :
      (c : ProjectAConfig) (h : Hashes) (letter_id : String) (now : Time) (id worker : String)
      (delay : ℕ) (db db' : Db) (status : Option OutboxStatus)
      → fail_outbox c h letter_id now id worker delay db ≡ some (status, db')
      → R db db'
  unfolding fail_outbox
  fail_outbox-R c h letter_id now id worker delay db db' status q =
      elim (Option-cases (held_row id worker db)) [
        | inl k ↦ let e : db ≡ db' = ground (arith, q, k) in subst (R db) e (f.same db)
        | inr (r, k) ↦ elim (Option-cases (plus_seconds now delay)) [
          | inl o ↦ absurd (ground (arith, q, k, o))
          | inr (later, o) ↦
              let w : fail_row c h letter_id (iso now) (iso later) worker r db
                  ≡ some (status, db') =
                ground (arith, q, k, o) in
              let same =
                find-key OutboxRow.outbox_id id r db.outbox (held_row-found id worker db r k).0 in
              let due = subst (λ i. Touches i db) (sym same) (held-Touches id worker db r k) in
              fail_row-R c h letter_id (iso now) (iso later) worker r db db' status due w
        ]
      ]

  pub recover-R :
      (c : ProjectAConfig) (now : Time) (n : ℕ) (db db' : Db)
      → recover_abandoned_claims c now db ≡ some (n, db')
      → R db db'
  unfolding recover_abandoned_claims
  recover-R c now n db db' q = elim (Option-cases (minus_seconds now c.claim_timeout_seconds)) [
    | inl o ↦ absurd (ground (arith, q, o))
    | inr (t, o) ↦
        let k : recover_rows (iso now) (select (is_abandoned (iso t)) db.outbox) db ≡ db' =
          ground (arith, q, o) in
        subst (R db) k (
          recover_rows-R (iso now) (select (is_abandoned (iso t)) db.outbox) db
            (abandoned-Due (iso t) db))
  ]
