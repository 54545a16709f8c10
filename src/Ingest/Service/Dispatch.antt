-- ===== src/Ingest/Service/Dispatch.antt =====
-- What is handed to the next stage has passed every gate.
pub mod Commits
use trading_ai_pipeline.Base.{
  ◌≡◌, refl, ap, ◌∙◌, String, Bool, true, false, ◌∷◌, Option, none, some, str_eq, arith, Bool-cases,
  Option-cases, inl, inr,
}
use trading_ai_pipeline.Base.Table.{find}
use trading_ai_pipeline.Output.Stamp.{Time}
use trading_ai_pipeline.Ingest.Service.Lifecycle.{
  EventType, EventClass, Transition, transition, by_type,
}
use trading_ai_pipeline.Ingest.Service.Rows.{
  Event, EventRow, Receipt, SetupRow, OutboxRow, OutboxStatus, Processing, Status, Note, Db, Hashes,
  Ids, IngestResult, RuntimeReject,
}
use trading_ai_pipeline.Ingest.Service.Validate.{class_has, is_analysis_ready}
use trading_ai_pipeline.Ingest.Service.Commit.{
  Delivery, insert_processing, refuse, redeliver, insert_event, current, state_of, store_setup,
  persist, insert_outbox, outbox_row, enqueue, apply, is_late, decide, process, commit_validated,
  is_rejected, conflict_reject, late_reject, illegal_reject, key_if,
}
use trading_ai_pipeline.Ingest.Service.Receive.{
  Setting, Request, Checked, raises, is_recordable, bad, good, examine, receipt, store_raw,
  delivery, commit_or_fail, handle, receive, record_rejection, failure_reject, settle,
  write_rejection, rejection,
}
use trading_ai_pipeline.Ingest.Service.Frames.{bind-some, returning-some}
use trading_ai_pipeline.Ingest.Service.Gates.{IsReleasable, runtime_validate-IsReleasable}
use trading_ai_pipeline.Ingest.Service.History.{runtime_validate-class}
use trading_ai_pipeline.Ingest.Service.Frames.Runs.{check_event-good, examine-good}
use trading_ai_pipeline.Ingest.Service.Dispatch.Commits.{Hands, Dispatches, commit-Dispatches}

-- Only a ready event makes a transition that hands the setup on.
outbox_class :
    (o : Option EventType) (class : EventClass) (type : EventType)
    → (transition o class type).create_outbox ≡ true
    → class_has class type ≡ true
    → is_analysis_ready class ≡ true
unfolding transition by_type class_has
outbox_class o EventClass.telemetry type t h = absurd (ground (arith, t))
outbox_class o EventClass.analysis_ready type t h = refl
outbox_class o EventClass.candidate EventType.setup_candidate t h = ground (arith, t)
outbox_class o EventClass.candidate type t h = absurd (ground (arith, h))
outbox_class o EventClass.lifecycle type t h = absurd (ground (arith, t, h))

rejection-keyless :
    (s : Setting) (ids : Ids) (now : Time) (q : Request) (r : RuntimeReject) (db db' : Db)
    (res : IngestResult) (k : String)
    → record_rejection s ids now q r db ≡ (db', some res)
    → res.dispatch_key ≡ some k
    → ⊥
unfolding record_rejection
rejection-keyless s ids now q r db db' res k e m = by_writes (write_rejection s ids now q r db) e
  where
    by_writes : (o : Option Db) → settle db (rejection s ids now q r) o ≡ (db', some res) → ⊥
    by_writes none e = absurd (ground (arith, e))
    by_writes (some w) e =
        let same : rejection s ids now q r ≡ res = ground (arith, e) in
        ground (arith, ap (λ i. i.dispatch_key) same, m)

handled-Dispatches :
    (s : Setting) (ids : Ids) (now : Time) (q : Request) (e : Event) (db db' : Db)
    (res : IngestResult) (k : String)
    → commit_or_fail s ids now q e db ≡ (db', some res)
    → res.dispatch_key ≡ some k
    → Dispatches s.hashes (delivery s ids now q) e db db'
unfolding commit_or_fail
handled-Dispatches s ids now q e db db' res k w m =
    elim (Option-cases (commit_validated s.hashes (delivery s ids now q) e db)) [
      | inl failed ↦ absurd (
          rejection-keyless s ids now q failure_reject db db' res k
            (rw (failed, commit_or_fail) at w) m)
      | inr ((r, db₁), done) ↦
          let pair : (db₁, some r) ≡ (db', some res) = rw (done, commit_or_fail) at w in
          commit-Dispatches s.hashes (delivery s ids now q) e db db' res k
            (done ∙ ap (λ o. some o) (ground (arith, pair))) m
    ]

receive-Dispatches :
    (s : Setting) (ids : Ids) (now : Time) (q : Request) (c : Checked) (db db' : Db)
    (res : IngestResult) (k : String)
    → handle s ids now q c db ≡ (db', some res)
    → res.dispatch_key ≡ some k
    → (e : Event) × (c ≡ good e) × Dispatches s.hashes (delivery s ids now q) e db db'
unfolding handle
receive-Dispatches s ids now q raises db db' res k w m = absurd (ground (arith, w))
receive-Dispatches s ids now q (bad r) db db' res k w m = elim (Bool-cases (is_recordable s q)) [
  | inl c ↦ absurd (rejection-keyless s ids now q r db db' res k (rw c at w) m)
  | inr c ↦ absurd (ground (arith, w, c))
]
receive-Dispatches s ids now q (good e) db db' res k w m =
    (e, refl, handled-Dispatches s ids now q e db db' res k w m)

store_raw-outbox : (r : Receipt) (db db' : Db) → store_raw r db ≡ some db' → db'.outbox ≡ db.outbox
unfolding store_raw
store_raw-outbox r db db' q = ground (arith, q)

-- A call that returns a dispatch key: it has put one PENDING row for an event that passed the checks in
-- front of the outbox, and the event passes every gate: it is ANALYSIS_READY and ACCEPTED, for the
-- enabled symbol and the base time frame, neither stale nor in the future, carries no authority field,
-- has a spread from zero to the limit, and SNR bounds in order.
pub dispatch_gated :
    (s : Setting) (ids : Ids) (now : Time) (q : Request) (db db' : Db) (r : IngestResult)
    (k : String)
    → receive s ids now q db ≡ (db', some r)
    → r.dispatch_key ≡ some k
    → (e : Event) × (examine s now q ≡ good e) × IsReleasable s.config now e × Hands e db db'
unfolding receive
dispatch_gated s ids now q db db' r k w m =
    elim (Option-cases (store_raw (receipt s ids now q) db)) [
      | inl raw ↦ absurd (ground (arith, rw (raw, receive) at w))
      | inr (db₀, raw) ↦
          let (e, g, ((o, created), (row, front, event, key, setup, status))) =
            receive-Dispatches s ids now q (examine s now q) db₀ db' r k (rw (raw, receive) at w)
              m in
          let (_, _, valid) = check_event-good s.config now e e (examine-good s now q e g) in
          (
            e,
            g,
            runtime_validate-IsReleasable s.config now e
                (outbox_class o e.event_class e.event_type created
                  (runtime_validate-class s.config now e valid))
                valid,
            (
              row,
              front ∙ ap (λ rows. row ∷ rows) (store_raw-outbox _ db db₀ raw),
              event,
              key,
              setup,
              status,
            ),
          )
    ]
