-- ===== src/Ingest/Service/Frames.antt =====
-- What every write keeps holds between the ends of every run: one walk through the service, for any
-- relation on the tables.
pub mod Outbox
pub mod Runs
use mathlib.Core.Path.{subst}
use trading_ai_pipeline.Base.{
  ℕ, ◌≡◌, ◌≤◌, refl, sym, ap, ◌∙◌, String, Bool, true, false, not, ◌&&◌, ◌||◌, List, [], ◌∷◌,
  Option, none, some, is_some, str_eq, if◌then◌else◌, arith, Bool-cases, Option-cases, inl, inr,
}
use trading_ai_pipeline.Base.Table.{find, update, Unique}
use trading_ai_pipeline.Output.Stamp.{Time, Stamp, plus_seconds, minus_seconds}
use trading_ai_pipeline.Ingest.Service.Lifecycle.{EventType, Transition, transition}
use trading_ai_pipeline.Ingest.Service.Rows.{
  Event, EventRow, SetupRow, HistoryRow, OutboxRow, OutboxStatus, AttemptRow, DeadLetter,
  Processing, Receipt, Status, Note, Db, Hashes, Ids, IngestResult, RuntimeReject, has_receipt,
}
use trading_ai_pipeline.Ingest.Service.Commit.{
  Delivery, Outcome, returning, ◌>>=◌, insert_processing, dead_letter, refuse, redeliver,
  insert_event, current, state_of, setup_row, history_row, upsert_setup, store_setup, persist,
  insert_outbox, outbox_row, enqueue, apply, is_late, decide, process, commit_validated, event_row,
  duplicate_body, same_evidence, original, is_rejected, conflict_reject, late_reject,
  illegal_reject,
}

-- Neither delivered nor in the dead letters.
abbrev pub is_active : OutboxStatus → Bool
is_active OutboxStatus.delivered = false
is_active OutboxStatus.dead_letter = false
is_active _ = true

-- The row of the outbox that an UPDATE of this id changes is active, if the id is a key.
abbrev pub Touches : String → Db → Type 0
Touches id db =
    Unique OutboxRow.outbox_id db.outbox
    → (r : OutboxRow) → find OutboxRow.outbox_id id db.outbox ≡ some r
    → is_active r.status ≡ true

pub record Frame (V : Event → Type 0) (R : Db → Db → Type 0) : Type 0 where
  pub same : (db : Db) → R db db
  pub chain : (a b c : Db) → R a b → R b c → R a c
  pub receipts : (r : Receipt) (db : Db) → R db (record db { receipts = r ∷ db.receipts })
  pub processing : (p : Processing) (db : Db) → R db (record db { processing = p ∷ db.processing })
  pub letters : (ds : List DeadLetter) (db : Db) → R db (record db { dead_letters = ds })
  pub queued :
      (r : OutboxRow) (db : Db)
      → find OutboxRow.outbox_id r.outbox_id db.outbox ≡ none
      → R db (record db { outbox = r ∷ db.outbox })
  pub changed :
      (id : String) (g : OutboxRow → OutboxRow) (tries : List AttemptRow) (db : Db)
      → ((r : OutboxRow) → (g r).outbox_id ≡ r.outbox_id)
      → ((r : OutboxRow) → r.attempt_count ≤ (g r).attempt_count)
      → Touches id db
      → R db (record db { outbox = update OutboxRow.outbox_id id g db.outbox; attempts = tries })
  pub events :
      (r : EventRow) (db : Db)
      → find EventRow.event_id r.event_id db.events ≡ none
      → R db (record db { events = r ∷ db.events })
  pub setup :
      (h : Hashes) (d : Delivery) (e : Event) (id : String) (next : EventType) (db : Db)
      → V e
      → e.setup_id ≡ some id
      → (transition (state_of (current e db)) e.event_class e.event_type).allowed ≡ true
      → (transition (state_of (current e db)) e.event_class e.event_type).next_state ≡ some next
      → is_late e (current e db) ≡ false
      → R db (record db {
        setups = upsert_setup (setup_row h d e id next (current e db)) (current e db) db.setups;
        history =
            history_row h d e id
              (transition (state_of (current e db)) e.event_class e.event_type)
              (current e db)
            ∷ db.history;
      })

pub bind-some :
    {A B : Type 0} (m : Option A) (f : A → Option B) (b : B)
    → (m >>= f) ≡ some b
    → (a : A) × (m ≡ some a) × (f a ≡ some b)
bind-some none f b e = absurd (ground arith)
bind-some (some a) f b e = (a, refl, e)

pub returning-some :
    (r r' : IngestResult) (o : Option Db) (db' : Db)
    → returning r o ≡ some (r', db')
    → (o ≡ some db') × (r ≡ r')
returning-some r r' none db' e = absurd (ground arith)
returning-some r r' (some db) db' e = (ground arith, ground arith)

module _ (V : Event → Type 0) (R : Db → Db → Type 0) (f : Frame V R) where
  as_same : (db db' : Db) → db ≡ db' → R db db'
  as_same db db' e = subst (R db) e (f.same db)

  insert_processing-R :
      (p : Processing) (db db' : Db) → insert_processing p db ≡ some db' → R db db'
  unfolding insert_processing
  insert_processing-R p db db' e =
      let k : record db { processing = p ∷ db.processing } ≡ db' = ground (arith, e) in
      subst (R db) k (f.processing p db)

  pub dead_letter-R :
      (h : Hashes) (id ingest_id : String) (now : Stamp) (r : RuntimeReject)
      (event_id setup_id : Option String) (n : ℕ) (db db' : Db)
      → dead_letter h id ingest_id now r event_id setup_id n db ≡ some db'
      → R db db'
  unfolding dead_letter
  dead_letter-R h id ingest_id now r event_id setup_id n db db' e =
      let k : record db { dead_letters = db'.dead_letters } ≡ db' = ground (arith, e) in
      subst (R db) k (f.letters db'.dead_letters db)

  refuse-R :
      (h : Hashes) (d : Delivery) (e : Event) (r : RuntimeReject) (status : Status)
      (code : Option Note) (db db' : Db) (res : IngestResult)
      → refuse h d e r status code db ≡ some (res, db')
      → R db db'
  unfolding refuse
  refuse-R h d e r status code db db' res q =
      let (q', _) = returning-some _ res _ db' q in
      let (db₁, dead, done) = bind-some _ _ db' q' in
      f.chain db db₁ db' (dead_letter-R h _ _ _ r _ _ 0 db db₁ dead)
        (insert_processing-R _ db₁ db' done)

  redeliver-R :
      (h : Hashes) (d : Delivery) (e : Event) (x : EventRow) (db db' : Db) (res : IngestResult)
      → redeliver h d e x db ≡ some (res, db')
      → R db db'
  unfolding redeliver
  redeliver-R h d e x db db' res q =
      elim (Bool-cases (str_eq x.canonical_hash (h.canonical e.canonical))) [
        | inl c ↦
            let (q', _) = returning-some _ res _ db' (rw c at q) in insert_processing-R _ db db' q'
        | inr c ↦ refuse-R h d e conflict_reject Status.conflict none db db' res (rw c at q)
      ]

  insert_event-R : (r : EventRow) (db db' : Db) → insert_event r db ≡ some db' → R db db'
  unfolding insert_event
  insert_event-R r db db' e = elim (Option-cases (find EventRow.event_id r.event_id db.events)) [
    | inl free ↦
        let k : record db { events = r ∷ db.events } ≡ db' = ground (arith, e) in
        subst (R db) k (f.events r db free)
    | inr (x, taken) ↦ absurd (ground (arith, e, taken))
  ]

  persist-R :
      (h : Hashes) (d : Delivery) (e : Event) (db db' : Db)
      → V e
      → (transition (state_of (current e db)) e.event_class e.event_type).allowed ≡ true
      → is_late e (current e db) ≡ false
      → persist h d e
          (transition (state_of (current e db)) e.event_class e.event_type)
          (current e db)
          db
        ≡ some db'
      → R db db'
  unfolding persist store_setup
  persist-R h d e db db' v a l q =
      let t = transition (state_of (current e db)) e.event_class e.event_type in
      elim (Option-cases e.setup_id) [
        | inl k ↦ as_same db db' (ground (arith, q, k))
        | inr (id, k) ↦ elim (Bool-cases t.persist_state) [
          | inr p ↦ as_same db db' (ground (arith, q, k, p))
          | inl p ↦ elim (Option-cases t.next_state) [
            | inl n ↦ absurd (ground (arith, q, k, p, n))
            | inr (next, n) ↦
                let w : store_setup h d e id t (some next) (current e db) db ≡ some db' =
                  ground (arith, q, k, p, n) in
                subst (R db) (ground (arith, w)) (f.setup h d e id next db v k a n l)
          ]
        ]
      ]

  insert_outbox-R : (r : OutboxRow) (db db' : Db) → insert_outbox r db ≡ some db' → R db db'
  unfolding insert_outbox
  insert_outbox-R r db db' q =
      elim (Option-cases (find OutboxRow.outbox_id r.outbox_id db.outbox)) [
        | inl free ↦
            let k : record db { outbox = r ∷ db.outbox } ≡ db' = ground (arith, q) in
            subst (R db) k (f.queued r db free)
        | inr (x, taken) ↦ absurd (ground (arith, q, taken))
      ]

  enqueue-R :
      (h : Hashes) (d : Delivery) (e : Event) (t : Transition) (db db' : Db)
      → enqueue h d e t db ≡ some db'
      → R db db'
  unfolding enqueue
  enqueue-R h d e t db db' q = elim (Bool-cases t.create_outbox) [
    | inr c ↦ as_same db db' (ground (arith, q, c))
    | inl c ↦ elim (Option-cases e.setup_id) [
      | inl k ↦ absurd (ground (arith, q, c, k))
      | inr (id, k) ↦ insert_outbox-R (outbox_row h d e id) db db' (ground (arith, q, c, k))
    ]
  ]

  apply-R :
      (h : Hashes) (d : Delivery) (e : Event) (db db' : Db) (res : IngestResult)
      → V e
      → (transition (state_of (current e db)) e.event_class e.event_type).allowed ≡ true
      → is_late e (current e db) ≡ false
      → apply h d e
          (transition (state_of (current e db)) e.event_class e.event_type)
          (current e db)
          db
        ≡ some (res, db')
      → R db db'
  unfolding apply
  apply-R h d e db db' res v a l q =
      let (q', _) = returning-some _ res _ db' q in
      let (db₂, queued, done) = bind-some _ _ db' q' in
      let (db₁, stored, queue) = bind-some _ _ db₂ queued in
      f.chain db db₂ db'
        (f.chain db db₁ db₂ (persist-R h d e db db₁ v a l stored) (enqueue-R h d e _ db₁ db₂ queue))
        (insert_processing-R _ db₂ db' done)

  decide-R :
      (h : Hashes) (d : Delivery) (e : Event) (db db' : Db) (res : IngestResult)
      → V e
      → decide h d e (current e db) db ≡ some (res, db')
      → R db db'
  unfolding decide
  decide-R h d e db db' res v q =
      let t = transition (state_of (current e db)) e.event_class e.event_type in
      elim (Bool-cases (is_late e (current e db))) [
        | inl l ↦ refuse-R h d e late_reject Status.rejected none db db' res (rw l at q)
        | inr l ↦ elim (Bool-cases t.allowed) [
          | inl a ↦
              let w : apply h d e t (current e db) db ≡ some (res, db') = ground (arith, q, l, a) in
              apply-R h d e db db' res v a l w
          | inr a ↦
              let code = some (Note.moved t.reason_code) in
              let w : refuse h d e illegal_reject Status.rejected code db ≡ some (res, db') =
                ground (arith, q, l, a) in
              refuse-R h d e illegal_reject Status.rejected code db db' res w
        ]
      ]

  pub process-R :
      (h : Hashes) (d : Delivery) (e : Event) (o : Option (Status × String)) (db db' : Db)
      (res : IngestResult)
      → V e
      → process h d e o db ≡ some (res, db')
      → R db db'
  unfolding process
  process-R h d e (some (status, first)) db db' res v q =
      let (q', _) = returning-some _ res _ db' q in insert_processing-R _ db db' q'
  process-R h d e none db db' res v q = elim (Bool-cases (is_rejected e.disposition)) [
    | inl c ↦
        let (q', _) = returning-some _ res _ db' (rw c at q) in insert_processing-R _ db db' q'
    | inr c ↦ decide-R h d e db db' res v (rw c at q)
  ]

  pub commit-R :
      (h : Hashes) (d : Delivery) (e : Event) (db db' : Db) (res : IngestResult)
      → V e
      → commit_validated h d e db ≡ some (res, db')
      → R db db'
  unfolding commit_validated
  commit-R h d e db db' res v q =
      elim (Option-cases (find EventRow.event_id e.event_id db.events)) [
        | inr (x, known) ↦ redeliver-R h d e x db db' res (rw (known, commit_validated) at q)
        | inl new ↦
            let (db₁, stored, rest) = bind-some _ _ (res, db') (rw (new, commit_validated) at q) in
            f.chain db db₁ db' (insert_event-R _ db db₁ stored)
              (process-R h d e _ db₁ db' res v rest)
      ]
