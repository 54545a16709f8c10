-- ===== src/Ingest/Service/Dispatch/Commits.antt =====
-- What the transaction of an event puts in the outbox.
use trading_ai_pipeline.Base.{
  ◌≡◌, refl, ap, ◌∙◌, String, Bool, true, false, ◌∷◌, Option, none, some, str_eq, arith, Bool-cases,
  Option-cases, inl, inr,
}
use trading_ai_pipeline.Base.Table.{find}
use trading_ai_pipeline.Ingest.Service.Lifecycle.{EventType, Transition, transition}
use trading_ai_pipeline.Ingest.Service.Rows.{
  Event, EventRow, SetupRow, OutboxRow, OutboxStatus, Processing, Status, Note, Db, Hashes,
  IngestResult, RuntimeReject,
}
use trading_ai_pipeline.Ingest.Service.Commit.{
  Delivery, insert_processing, refuse, redeliver, insert_event, current, state_of, store_setup,
  persist, insert_outbox, outbox_row, enqueue, apply, is_late, decide, process, commit_validated,
  is_rejected, conflict_reject, late_reject, illegal_reject, key_if,
}
use trading_ai_pipeline.Ingest.Service.Frames.{bind-some, returning-some}

-- A row of the event is put in front of the outbox.
abbrev pub Hands : Event → Db → Db → Type 0
Hands e db db' =
    (row : OutboxRow) × (db'.outbox ≡ row ∷ db.outbox)
    × (row.event ≡ e)
    × (row.event_id ≡ e.event_id)
    × (e.setup_id ≡ some row.setup_id)
    × (row.status ≡ OutboxStatus.pending)

module _ (h : Hashes) (d : Delivery) (e : Event) where
  store_setup-outbox :
      (id : String) (t : Transition) (next : Option EventType) (old : Option SetupRow) (db db' : Db)
      → store_setup h d e id t next old db ≡ some db'
      → db'.outbox ≡ db.outbox
  unfolding store_setup
  store_setup-outbox id t none old db db' q = absurd (ground (arith, q))
  store_setup-outbox id t (some next) old db db' q = ground (arith, q)

  persist-outbox :
      (t : Transition) (old : Option SetupRow) (db db' : Db)
      → persist h d e t old db ≡ some db'
      → db'.outbox ≡ db.outbox
  unfolding persist
  persist-outbox t old db db' q = elim (Option-cases e.setup_id) [
    | inl k ↦ ground (arith, q, k)
    | inr (id, k) ↦ elim (Bool-cases t.persist_state) [
      | inr p ↦ ground (arith, q, k, p)
      | inl p ↦ store_setup-outbox id t t.next_state old db db' (ground (arith, q, k, p))
    ]
  ]

  enqueue-Hands :
      (t : Transition) (db db' : Db)
      → t.create_outbox ≡ true
      → enqueue h d e t db ≡ some db'
      → Hands e db db'
  unfolding enqueue insert_outbox
  enqueue-Hands t db db' c q = elim (Option-cases e.setup_id) [
    | inl k ↦ absurd (ground (arith, q, c, k))
    | inr (id, k) ↦ (outbox_row h d e id, ground (arith, q, c, k), refl, refl, k, refl)
  ]

  insert_processing-outbox :
      (p : Processing) (db db' : Db) → insert_processing p db ≡ some db' → db'.outbox ≡ db.outbox
  unfolding insert_processing
  insert_processing-outbox p db db' q = ground (arith, q)

  insert_event-outbox :
      (r : EventRow) (db db' : Db) → insert_event r db ≡ some db' → db'.outbox ≡ db.outbox
  unfolding insert_event
  insert_event-outbox r db db' q = ground (arith, q)

  -- A key is returned by no branch but that of an accepted ready event.
  abbrev pub Dispatches : Db → Db → Type 0
  Dispatches db db' =
      ((o : Option EventType) × ((transition o e.event_class e.event_type).create_outbox ≡ true))
      × Hands e db db'

  key-created :
      (b : Bool) (o : Option String) (k : String) → key_if h e b ≡ o → o ≡ some k → b ≡ true
  key-created true o k q m = refl
  key-created false o k q m = absurd (ground (arith, q, m))

  keyless :
      (res res' : IngestResult) (k : String)
      → res.dispatch_key ≡ none
      → res ≡ res'
      → res'.dispatch_key ≡ some k
      → ⊥
  keyless res res' k n q m = ground (arith, n, ap (λ i. i.dispatch_key) q, m)

  apply-Dispatches :
      (old : Option SetupRow) (db db' : Db) (res : IngestResult) (k : String)
      → apply h d e (transition (state_of old) e.event_class e.event_type) old db ≡ some (res, db')
      → res.dispatch_key ≡ some k
      → Dispatches db db'
  unfolding apply
  apply-Dispatches old db db' res k q m =
      let t = transition (state_of old) e.event_class e.event_type in
      let (writes, same) = returning-some _ res _ db' q in
      let (db₂, queued, done) = bind-some _ _ db' writes in
      let (db₁, stored, queue) = bind-some _ _ db₂ queued in
      let created : t.create_outbox ≡ true =
        key-created t.create_outbox res.dispatch_key k (ap (λ i. i.dispatch_key) same) m in
      let (row, front, event, key, setup, status) = enqueue-Hands t db₁ db₂ created queue in
      (
        (state_of old, created),
        (
          row,
          insert_processing-outbox _ db₂ db' done
              ∙ front
              ∙ ap (λ rows. row ∷ rows) (persist-outbox t old db db₁ stored),
          event,
          key,
          setup,
          status,
        ),
      )

  refuse-keyless :
      (r : RuntimeReject) (status : Status) (code : Option Note) (db db' : Db) (res : IngestResult)
      (k : String)
      → refuse h d e r status code db ≡ some (res, db')
      → res.dispatch_key ≡ some k
      → ⊥
  unfolding refuse
  refuse-keyless r status code db db' res k q m =
      keyless _ res k refl (returning-some _ res _ db' q).1 m

  decide-Dispatches :
      (old : Option SetupRow) (db db' : Db) (res : IngestResult) (k : String)
      → decide h d e old db ≡ some (res, db')
      → res.dispatch_key ≡ some k
      → Dispatches db db'
  unfolding decide
  decide-Dispatches old db db' res k q m =
      let t = transition (state_of old) e.event_class e.event_type in
      elim (Bool-cases (is_late e old)) [
        | inl l ↦
            absurd (refuse-keyless late_reject Status.rejected none db db' res k (rw l at q) m)
        | inr l ↦ elim (Bool-cases t.allowed) [
          | inl a ↦
              let w : apply h d e t old db ≡ some (res, db') = ground (arith, q, l, a) in
              apply-Dispatches old db db' res k w m
          | inr a ↦
              let code = some (Note.moved t.reason_code) in
              let w : refuse h d e illegal_reject Status.rejected code db ≡ some (res, db') =
                ground (arith, q, l, a) in
              absurd (refuse-keyless illegal_reject Status.rejected code db db' res k w m)
        ]
      ]

  process-Dispatches :
      (o : Option (Status × String)) (db db' : Db) (res : IngestResult) (k : String)
      → process h d e o db ≡ some (res, db')
      → res.dispatch_key ≡ some k
      → Dispatches db db'
  unfolding process
  process-Dispatches (some (status, first)) db db' res k q m =
      absurd (keyless _ res k refl (returning-some _ res _ db' q).1 m)
  process-Dispatches none db db' res k q m = elim (Bool-cases (is_rejected e.disposition)) [
    | inl c ↦ absurd (keyless _ res k refl (returning-some _ res _ db' (rw c at q)).1 m)
    | inr c ↦ decide-Dispatches (current e db) db db' res k (rw c at q) m
  ]

  redeliver-keyless :
      (x : EventRow) (db db' : Db) (res : IngestResult) (k : String)
      → redeliver h d e x db ≡ some (res, db')
      → res.dispatch_key ≡ some k
      → ⊥
  unfolding redeliver
  redeliver-keyless x db db' res k q m =
      elim (Bool-cases (str_eq x.canonical_hash (h.canonical e.canonical))) [
        | inl c ↦ keyless _ res k refl (returning-some _ res _ db' (rw c at q)).1 m
        | inr c ↦ refuse-keyless conflict_reject Status.conflict none db db' res k (rw c at q) m
      ]

  pub commit-Dispatches :
      (db db' : Db) (res : IngestResult) (k : String)
      → commit_validated h d e db ≡ some (res, db')
      → res.dispatch_key ≡ some k
      → Dispatches db db'
  unfolding commit_validated
  commit-Dispatches db db' res k q m =
      elim (Option-cases (find EventRow.event_id e.event_id db.events)) [
        | inr (x, known) ↦
            absurd (redeliver-keyless x db db' res k (rw (known, commit_validated) at q) m)
        | inl new ↦
            let (db₁, stored, rest) = bind-some _ _ (res, db') (rw (new, commit_validated) at q) in
            let (o, (row, front, event, key, setup, status)) =
              process-Dispatches _ db₁ db' res k rest m in
            (
              o,
              (
                row,
                front ∙ ap (λ rows. row ∷ rows) (insert_event-outbox _ db db₁ stored),
                event,
                key,
                setup,
                status,
              ),
            )
      ]
