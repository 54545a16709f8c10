-- ===== src/Ingest/Service/Retries.antt =====
-- A worker gives a row of the outbox back for another try fewer times than the settings allow.
use mathlib.Core.Path.{subst}
use trading_ai_pipeline.Base.{
  ℕ, ◌+◌, ◌≤◌, ◌≡◌, refl, sym, ap, ◌∙◌, String, ◌∷◌, Option, none, some, str_eq, str_eq_iff, arith,
  Bool-cases, Option-cases, inl, inr,
}
use trading_ai_pipeline.Base.Table.{find, update, Unique, Unique-update, find-update, find-Memᴰ}
use trading_ai_pipeline.Output.Stamp.{Time, plus_seconds}
use trading_ai_pipeline.Ingest.Service.Rows.{
  OutboxRow, OutboxStatus, failed, claimed, Db, ProjectAConfig, Hashes, iso,
}
use trading_ai_pipeline.Ingest.Service.Outbox.{
  claim_outbox, fail_outbox, fail_row, claimed_row, attempt, change, held_row, returning_status,
  is_terminal_attempt,
}
use trading_ai_pipeline.Ingest.Service.Receive.{Setting}
use trading_ai_pipeline.Ingest.Service.Step.{Run, fails}
use trading_ai_pipeline.Ingest.Service.Frames.{Frame}
use trading_ai_pipeline.Ingest.Service.Frames.Outbox.{held_row-found}
use trading_ai_pipeline.Ingest.Service.Frames.Runs.{Step-R, Run-R}
use trading_ai_pipeline.Ingest.Service.Redelivery.{AnyEvent}
use trading_ai_pipeline.Ingest.Service.Handover.{claim-found, find-change, Unique-change}

-- A row of this id that has been claimed at least so often; the id is a key.
abbrev Tried : String → ℕ → Db → Type 0
Tried id n db =
    Unique OutboxRow.outbox_id db.outbox
    × (r : OutboxRow) × (find OutboxRow.outbox_id id db.outbox ≡ some r)
    × (n ≤ r.attempt_count)

-- No call forgets an attempt.
abbrev Counts : Db → Db → Type 0
Counts db db' = (id : String) (n : ℕ) → Tried id n db → Tried id n db'

queued-Counts :
    (q : OutboxRow) (db : Db)
    → find OutboxRow.outbox_id q.outbox_id db.outbox ≡ none
    → Counts db (record db { outbox = q ∷ db.outbox })
unfolding find
queued-Counts q db free id n (u, r, k, m) =
    ((free, u), r, ground (arith, free, k, str_eq_iff q.outbox_id id), m)

changed-Counts :
    (i : String) (g : OutboxRow → OutboxRow) (db : Db)
    → ((r : OutboxRow) → (g r).outbox_id ≡ r.outbox_id)
    → ((r : OutboxRow) → r.attempt_count ≤ (g r).attempt_count)
    → Counts db (record db { outbox = update OutboxRow.outbox_id i g db.outbox })
changed-Counts i g db keep grow id n (u, r, k, m) =
    let moved = find-update OutboxRow.outbox_id i id g db.outbox keep in
    let v = Unique-update OutboxRow.outbox_id i g db.outbox keep u in
    elim (Bool-cases (str_eq i id)) [
      | inl c ↦ (v, g r, moved ∙ rw (c, k) refl, ground (arith, grow r, m))
      | inr c ↦ (v, r, moved ∙ rw (c, k) refl, m)
    ]

Counts-Frame : Frame AnyEvent Counts
Counts-Frame = record {
  same = λ db id n t. t;
  chain = λ a b c p q id n t. q id n (p id n t);
  receipts = λ r db id n t. t;
  processing = λ p db id n t. t;
  letters = λ ds db id n t. t;
  queued = λ r db free id n t. queued-Counts r db free id n t;
  changed = λ i g tries db keep grow due id n t. changed-Counts i g db keep grow id n t;
  events = λ r db free id n t. t;
  setup = λ h d e i next db v k a l w id n t. t;
}

-- A row that a claim takes has been claimed once more.
claim-Tried :
    (now : Time) (worker id : String) (n : ℕ) (db db' : Db) (r : OutboxRow)
    → Tried id n db
    → claim_outbox now worker db ≡ (some r, db')
    → r.outbox_id ≡ id
    → Tried id (n + 1) db'
claim-Tried now worker id n db db' r (u, x, k, m) q same =
    let (r₀, there, due, taken, changed) = claim-found now worker db db' r q in
    let f = claimed_row (iso now) worker in
    let a = attempt r₀.outbox_id (iso now) (some worker) claimed in
    let key : r₀.outbox_id ≡ id = sym (ap (λ i. i.outbox_id) taken) ∙ same in
    let own = find-Memᴰ OutboxRow.outbox_id r₀ db.outbox u there in
    let found : some r₀ ≡ some x =
      sym own ∙ ap (λ i. find OutboxRow.outbox_id i db.outbox) key ∙ k in
    let x_is : r₀ ≡ x = ground (arith, found) in
    let count : n ≤ r₀.attempt_count = ground (arith, m, ap (λ i. i.attempt_count) x_is) in
    let moved : find OutboxRow.outbox_id r₀.outbox_id (change r₀.outbox_id f a db).outbox
        ≡ some (f r₀) =
      find-change r₀.outbox_id f a db r₀ (λ i. refl) own in
    subst (Tried id (n + 1)) (sym changed) (
      Unique-change r₀.outbox_id f a db (λ i. refl) u,
      f r₀,
      subst (λ i. find OutboxRow.outbox_id i (change r₀.outbox_id f a db).outbox ≡ some (f r₀)) key
          moved,
      ground (arith, count),
    )

not_returned :
    (o : Option Db) (db : Db)
    → returning_status OutboxStatus.dead_letter o ≡ some (some failed, db)
    → ⊥
not_returned none db e = ground (arith, e)
not_returned (some x) db e = ground (arith, e)

-- A row that is given back has tries left.
fail-left :
    (c : ProjectAConfig) (h : Hashes) (letter : String) (now : Time) (id worker : String)
    (delay : ℕ) (db db' : Db)
    → fail_outbox c h letter now id worker delay db ≡ some (some failed, db')
    → (r : OutboxRow) × (find OutboxRow.outbox_id id db.outbox ≡ some r)
      × (r.attempt_count + 1 ≤ c.max_outbox_attempts)
unfolding fail_outbox fail_row
fail-left c h letter now id worker delay db db' q = elim (Option-cases (held_row id worker db)) [
  | inl k ↦ absurd (ground (arith, q, k))
  | inr (r, k) ↦ elim (Option-cases (plus_seconds now delay)) [
    | inl o ↦ absurd (ground (arith, q, k, o))
    | inr (later, o) ↦
        let w : fail_row c h letter (iso now) (iso later) worker r db ≡ some (some failed, db') =
          ground (arith, q, k, o) in
        elim (Bool-cases (is_terminal_attempt c r)) [
          | inl t ↦ absurd (not_returned _ db' (rw (t, fail_row) at w))
          | inr t ↦ (r, (held_row-found id worker db r k).0, ground (arith, t))
        ]
  ]
]

-- A row is claimed and given back so many times, with any calls of the service between.
pub data Retries (s : Setting) (id : String) : ℕ → Db → Db → Type 0 where
  none_yet : {db : Db} → Retries s id 0 db db
  once_more :
      {n : ℕ} {db db₁ db₂ db₃ db₄ db₅ : Db} {r : OutboxRow} (now later : Time)
      (worker worker' letter : String) (delay : ℕ)
      → Retries s id n db db₁
      → Run s db₁ db₂
      → claim_outbox now worker db₂ ≡ (some r, db₃)
      → r.outbox_id ≡ id
      → Run s db₃ db₄
      → fail_outbox s.config s.hashes letter later id worker' delay db₄ ≡ some (some failed, db₅)
      → Retries s id (n + 1) db db₅

module _ (s : Setting) (id : String) where
  Run-Tried : (n : ℕ) (db db' : Db) → Run s db db' → Tried id n db → Tried id n db'
  Run-Tried n db db' run t = Run-R AnyEvent Counts Counts-Frame s (λ t e c. tt) db db' run id n t

  counted_rounds :
      {n : ℕ} {db db' : Db}
      → 1 ≤ s.config.max_outbox_attempts
      → Tried id 0 db
      → Retries s id n db db'
      → Tried id n db' × (n + 1 ≤ s.config.max_outbox_attempts)
  counted_rounds top t none_yet = (t, ground (arith, top))
  counted_rounds top t
        (once_more {n} {db} {db₁} {db₂} {db₃} {db₄} {db₅} {r} now later w w' letter delay rs run q
          same run' e) =
      let (t₁, left) = counted_rounds top t rs in
      let t₂ = Run-Tried n db₁ db₂ run t₁ in
      let t₃ = claim-Tried now w id n db₂ db₃ r t₂ q same in
      let (u, x, k, m) = Run-Tried (n + 1) db₃ db₄ run' t₃ in
      let (y, k', less) = fail-left s.config s.hashes letter later id w' delay db₄ db₅ e in
      let found : some x ≡ some y = sym k ∙ k' in
      let same' : x ≡ y = ground (arith, found) in
      (
        Step-R AnyEvent Counts Counts-Frame s (λ t e c. tt) db₄ db₅
            (fails letter later id w' delay (some failed) e) id (n + 1) (u, x, k, m),
        ground (arith, m, less, ap (λ i. i.attempt_count) same'),
      )

-- A row of an outbox whose ids are a key, under settings that allow at least one attempt: it can be
-- claimed and given back for a retry only fewer times than max_outbox_attempts, whatever calls of the
-- service come between, so that the retries of a row that always fails come to an end.
pub given_back_bounded :
    (s : Setting) (id : String) (n : ℕ) (db db' : Db) (r : OutboxRow)
    → 1 ≤ s.config.max_outbox_attempts
    → Unique OutboxRow.outbox_id db.outbox
    → find OutboxRow.outbox_id id db.outbox ≡ some r
    → Retries s id n db db'
    → n + 1 ≤ s.config.max_outbox_attempts
given_back_bounded s id n db db' r top u k rs =
    (counted_rounds s id top (u, r, k, ground arith) rs).1
