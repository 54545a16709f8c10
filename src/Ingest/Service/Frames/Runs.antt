-- ===== src/Ingest/Service/Frames/Runs.antt =====
-- The walk through `receive`, and through runs.
use mathlib.Core.Path.{subst}
use trading_ai_pipeline.Base.{
  ◌≡◌, refl, ap, ◌∷◌, Option, none, some, arith, Bool-cases, Option-cases, inl, inr,
}
use trading_ai_pipeline.Output.Stamp.{Time}
use trading_ai_pipeline.Ingest.Service.Rows.{
  Event, Receipt, Db, Ids, IngestResult, RuntimeReject, ProjectAConfig,
}
use trading_ai_pipeline.Ingest.Service.Validate.{validate_v02_lifecycle_support, runtime_validate}
use trading_ai_pipeline.Ingest.Service.Commit.{commit_validated}
use trading_ai_pipeline.Ingest.Service.Receive.{
  Setting, Request, Checked, raises, bad, good, is_recordable, Check, Reading, undecodable,
  unparsable, not_object, object, Version, supported, structural, semantic, valid, check_event,
  check_document, check_version, check_reading, examine, settle, store_raw, receipt, rejection,
  write_rejection, record_rejection, commit_or_fail, delivery, failure_reject, handle, receive,
}
use trading_ai_pipeline.Ingest.Service.Step.{
  Step, receives, claims, delivers, fails, recovers, retries, Run, here, next,
}
use trading_ai_pipeline.Ingest.Service.Frames.Outbox.{
  claim_outbox-R, deliver_outbox-R, retry_outbox-R, fail_outbox-R, recover-R,
}
use trading_ai_pipeline.Ingest.Service.Frames.{
  Frame, bind-some, dead_letter-R, commit-R, insert_processing-R,
}

pub check_event-good :
    (c : ProjectAConfig) (now : Time) (x e : Event)
    → check_event c now x ≡ good e
    → (x ≡ e) × (validate_v02_lifecycle_support x ≡ none) × (runtime_validate c now x ≡ none)
unfolding check_event
check_event-good c now x e q = elim (Option-cases (validate_v02_lifecycle_support x)) [
  | inr (r, k) ↦ absurd (ground (arith, q, k))
  | inl k ↦ elim (Option-cases (runtime_validate c now x)) [
    | inr (r, m) ↦ absurd (ground (arith, q, k, m))
    | inl m ↦ elim (Bool-cases x.renders) [
      | inl w ↦ (ground (arith, q, k, m, w), k, m)
      | inr w ↦ absurd (ground (arith, q, k, m, w))
    ]
  ]
]

check_reading-good :
    (c : ProjectAConfig) (now : Time) (r : Reading) (e : Event)
    → check_reading c now r ≡ good e
    → check_event c now e ≡ good e
unfolding check_reading check_version check_document
check_reading-good c now undecodable e q = absurd (ground (arith, q))
check_reading-good c now Reading.raising e q = absurd (ground (arith, q))
check_reading-good c now unparsable e q = absurd (ground (arith, q))
check_reading-good c now not_object e q = absurd (ground (arith, q))
check_reading-good c now (object i s Version.missing k) e q = absurd (ground (arith, q))
check_reading-good c now (object i s Version.other k) e q = absurd (ground (arith, q))
check_reading-good c now (object i s supported structural) e q = absurd (ground (arith, q))
check_reading-good c now (object i s supported Check.raising) e q = absurd (ground (arith, q))
check_reading-good c now (object i s supported semantic) e q = absurd (ground (arith, q))
check_reading-good c now (object i s supported (valid x)) e q =
    subst (λ y. check_event c now y ≡ good e) (check_event-good c now x e q).0 q

-- An event that is handed to the transaction has passed the checks of the service.
pub examine-good :
    (s : Setting) (now : Time) (q : Request) (e : Event)
    → examine s now q ≡ good e
    → check_event s.config now e ≡ good e
unfolding examine
examine-good s now q e g = elim (Option-cases q.pre_error) [
  | inr (r, k) ↦ absurd (ground (arith, g, k))
  | inl k ↦
      let read : check_reading s.config now (s.reader.read q.raw_body) ≡ good e =
        ground (arith, g, k) in
      check_reading-good s.config now (s.reader.read q.raw_body) e read
]

module _ (V : Event → Type 0) (R : Db → Db → Type 0) (f : Frame V R) where
  settle-R :
      (db : Db) (r : IngestResult) (o : Option Db)
      → ((db' : Db) → o ≡ some db' → R db db')
      → R db (settle db r o).0
  settle-R db r none k = f.same db
  settle-R db r (some db') k = k db' refl

  write_rejection-R :
      (s : Setting) (ids : Ids) (now : Time) (q : Request) (r : RuntimeReject) (db db' : Db)
      → write_rejection s ids now q r db ≡ some db'
      → R db db'
  unfolding write_rejection
  write_rejection-R s ids now q r db db' k =
      let (db₁, dead, done) = bind-some _ _ db' k in
      f.chain db db₁ db' (dead_letter-R V R f s.hashes _ _ _ r _ _ 0 db db₁ dead)
        (insert_processing-R V R f _ db₁ db' done)

  record_rejection-R :
      (s : Setting) (ids : Ids) (now : Time) (q : Request) (r : RuntimeReject) (db : Db)
      → R db (record_rejection s ids now q r db).0
  unfolding record_rejection
  record_rejection-R s ids now q r db =
      settle-R db (rejection s ids now q r) (write_rejection s ids now q r db)
        (write_rejection-R s ids now q r db)

  commit_or_fail-R :
      (s : Setting) (ids : Ids) (now : Time) (q : Request) (e : Event) (db : Db)
      → V e
      → R db (commit_or_fail s ids now q e db).0
  unfolding commit_or_fail
  commit_or_fail-R s ids now q e db v =
      elim (Option-cases (commit_validated s.hashes (delivery s ids now q) e db)) [
        | inl k ↦ rw (k, commit_or_fail) (record_rejection-R s ids now q failure_reject db)
        | inr ((r, db'), k) ↦
            rw (k, commit_or_fail) (commit-R V R f s.hashes (delivery s ids now q) e db db' r v k)
      ]

  handle-R :
      (s : Setting) (ids : Ids) (now : Time) (q : Request) (k : Checked) (db : Db)
      → ((e : Event) → k ≡ good e → V e)
      → R db (handle s ids now q k db).0
  unfolding handle
  handle-R s ids now q raises db v = f.same db
  handle-R s ids now q (bad r) db v = elim (Bool-cases (is_recordable s q)) [
    | inl c ↦ rw c (record_rejection-R s ids now q r db)
    | inr c ↦ rw c (f.same db)
  ]
  handle-R s ids now q (good e) db v = commit_or_fail-R s ids now q e db (v e refl)

  store_raw-R : (r : Receipt) (db db' : Db) → store_raw r db ≡ some db' → R db db'
  unfolding store_raw
  store_raw-R r db db' e =
      let k : record db { receipts = r ∷ db.receipts } ≡ db' = ground (arith, e) in
      subst (R db) k (f.receipts r db)

  pub receive-R :
      (s : Setting) (ids : Ids) (now : Time) (q : Request) (db : Db)
      → ((e : Event) → check_event s.config now e ≡ good e → V e)
      → R db (receive s ids now q db).0
  unfolding receive
  receive-R s ids now q db v = elim (Option-cases (store_raw (receipt s ids now q) db)) [
    | inl k ↦ rw (k, receive) (f.same db)
    | inr (db₁, k) ↦
        rw (k, receive)
          (f.chain db db₁ _ (store_raw-R (receipt s ids now q) db db₁ k)
            (handle-R s ids now q (examine s now q) db₁ (λ e g. v e (examine-good s now q e g))))
  ]

  module _ (s : Setting)
      (v : (now : Time) (e : Event) → check_event s.config now e ≡ good e → V e) where
    pub Step-R : (db db' : Db) → Step s db db' → R db db'
    Step-R db db' (receives ids now q r k) =
        subst (R db) (ap (λ o. o.0) k) (receive-R s ids now q db (v now))
    Step-R db db' (claims now w r k) =
        subst (R db) (ap (λ o. o.1) k) (claim_outbox-R V R f now w db)
    Step-R db db' (delivers now id w done k) =
        subst (R db) (ap (λ o. o.1) k) (deliver_outbox-R V R f now id w db)
    Step-R db db' (fails letter now id w delay status k) =
        fail_outbox-R V R f s.config s.hashes letter now id w delay db db' status k
    Step-R db db' (recovers now n k) = recover-R V R f s.config now n db db' k
    Step-R db db' (retries now id done k) =
        subst (R db) (ap (λ o. o.1) k) (retry_outbox-R V R f now id db)

    pub Run-R : (db db' : Db) → Run s db db' → R db db'
    Run-R db db' here = f.same db
    Run-R db db' (next {db₁} run step) = f.chain db db₁ db' (Run-R db db₁ run) (Step-R db₁ db' step)
