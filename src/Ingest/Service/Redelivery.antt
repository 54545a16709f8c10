-- ===== src/Ingest/Service/Redelivery.antt =====
-- An event that has been stored is known for good: a later delivery of it, or its replay, is answered as
-- a duplicate, whatever became of the first.
use mathlib.Core.Path.{subst}
use trading_ai_pipeline.Base.{
  ◌≡◌, ◌≢◌, refl, sym, ap, ◌∙◌, String, true, List, ◌∷◌, Option, none, some, str_eq, str_eq_iff,
  arith, Bool-cases, Option-cases, inl, inr,
}
use trading_ai_pipeline.Base.Table.{find}
use trading_ai_pipeline.Output.Stamp.{Time}
use trading_ai_pipeline.Ingest.Service.Rows.{
  Event, EventRow, Receipt, Db, Hashes, Ids, IngestResult, ResultCode, Status, Note,
  event_id_conflict, persistence_failure, has_receipt,
}
use trading_ai_pipeline.Ingest.Service.Commit.{
  Delivery, insert_processing, redeliver, insert_event, event_row, processed, result,
  commit_validated, refuse,
}
use trading_ai_pipeline.Ingest.Service.Receive.{
  Setting, Request, good, examine, receipt, store_raw, delivery, commit_or_fail, handle, receive,
  record_rejection, failure_reject, settle, write_rejection, rejection,
}
use trading_ai_pipeline.Ingest.Service.Step.{Run}
use trading_ai_pipeline.Ingest.Service.Frames.{
  Frame, bind-some, returning-some, process-R, commit-R,
}
use trading_ai_pipeline.Ingest.Service.Frames.Runs.{Run-R}

abbrev pub AnyEvent : Event → Type 0
AnyEvent e = Unit {0}

-- A stored event stays as it is.
abbrev Keeps : Db → Db → Type 0
Keeps db db' =
    (id : String) (x : EventRow)
    → find EventRow.event_id id db.events ≡ some x
    → find EventRow.event_id id db'.events ≡ some x

kept_behind :
    (r : EventRow) (rows : List EventRow) (id : String) (x : EventRow)
    → find EventRow.event_id r.event_id rows ≡ none
    → find EventRow.event_id id rows ≡ some x
    → find EventRow.event_id id (r ∷ rows) ≡ some x
kept_behind r rows id x free k = elim (Bool-cases (str_eq r.event_id id)) [
  | inl c ↦
      let there : find EventRow.event_id r.event_id rows ≡ some x =
        subst (λ i. find EventRow.event_id i rows ≡ some x) (sym ((str_eq_iff r.event_id id).0 c))
          k in
      absurd (ground (arith, free, there))
  | inr c ↦ unfold find in rw c k
]

Keeps-Frame : Frame AnyEvent Keeps
Keeps-Frame = record {
  same = λ db id x k. k;
  chain = λ a b c p q id x k. q id x (p id x k);
  receipts = λ r db id x k. k;
  processing = λ p db id x k. k;
  letters = λ ds db id x k. k;
  queued = λ r db free id x k. k;
  changed = λ i g tries db keep grow due id x k. k;
  events = λ r db free id x k. kept_behind r db.events id x free k;
  setup = λ h d e id next db v k a n l i x m. m;
}

-- The event's id and its content are in the table.
abbrev IsStored : Hashes → Event → Db → Type 0
IsStored h e db =
    (x : EventRow) × (find EventRow.event_id e.event_id db.events ≡ some x)
    × (str_eq x.canonical_hash (h.canonical e.canonical) ≡ true)

insert-found :
    (r : EventRow) (db db' : Db)
    → insert_event r db ≡ some db'
    → find EventRow.event_id r.event_id db'.events ≡ some r
unfolding insert_event find
insert-found r db db' q =
    let k : r ∷ db.events ≡ db'.events = ground (arith, q) in
    rw (← k) (rw ((str_eq_iff r.event_id r.event_id).1 refl))

commit-IsStored :
    (h : Hashes) (d : Delivery) (e : Event) (db db' : Db) (r : IngestResult)
    → commit_validated h d e db ≡ some (r, db')
    → r.result_code ≢ ResultCode.refused event_id_conflict
    → IsStored h e db'
unfolding commit_validated redeliver refuse
commit-IsStored h d e db db' r q fine =
    elim (Option-cases (find EventRow.event_id e.event_id db.events)) [
      | inl new ↦
          let (db₁, stored, rest) = bind-some _ _ (r, db') (rw (new, commit_validated) at q) in
          (
            event_row h d e,
            process-R AnyEvent Keeps Keeps-Frame h d e _ db₁ db' r tt rest e.event_id
                (event_row h d e) (insert-found (event_row h d e) db db₁ stored),
            (str_eq_iff _ _).1 refl,
          )
      | inr (x, known) ↦ elim (Bool-cases (str_eq x.canonical_hash (h.canonical e.canonical))) [
        | inl c ↦ (x, commit-R AnyEvent Keeps Keeps-Frame h d e db db' r tt q e.event_id x known, c)
        | inr c ↦
            let (_, same) =
              returning-some _ r _ db' (rw c at (rw (known, commit_validated) at q)) in
            absurd (fine (ap (λ i. i.result_code) (sym same)))
      ]
    ]

failed_code :
    (s : Setting) (ids : Ids) (now : Time) (q : Request) (db db' : Db) (r : IngestResult)
    → record_rejection s ids now q failure_reject db ≡ (db', some r)
    → r.result_code ≡ ResultCode.refused persistence_failure
unfolding record_rejection
failed_code s ids now q db db' r k = by_writes (write_rejection s ids now q failure_reject db) k
  where
    by_writes :
        (o : Option Db)
        → settle db (rejection s ids now q failure_reject) o ≡ (db', some r)
        → r.result_code ≡ ResultCode.refused persistence_failure
    by_writes none k = absurd (ground (arith, k))
    by_writes (some w) k =
        let same : rejection s ids now q failure_reject ≡ r = ground (arith, k) in
        ap (λ i. i.result_code) (sym same)

-- A call that is answered otherwise than by a failure of the database has committed the event.
received-commit :
    (s : Setting) (ids : Ids) (now : Time) (q : Request) (e : Event) (db db₁ : Db)
    (r : IngestResult)
    → examine s now q ≡ good e
    → receive s ids now q db ≡ (db₁, some r)
    → r.result_code ≢ ResultCode.refused persistence_failure
    → (db₀ : Db) × (commit_validated s.hashes (delivery s ids now q) e db₀ ≡ some (r, db₁))
unfolding receive handle commit_or_fail
received-commit s ids now q e db db₁ r g k fine =
    elim (Option-cases (store_raw (receipt s ids now q) db)) [
      | inl raw ↦ absurd (ground (arith, rw (raw, receive) at k))
      | inr (db₀, raw) ↦
          let handled : commit_or_fail s ids now q e db₀ ≡ (db₁, some r) =
            rw (g, handle) at (rw (raw, receive) at k) in
          elim (Option-cases (commit_validated s.hashes (delivery s ids now q) e db₀)) [
            | inl failed ↦
                absurd (
                  fine (failed_code s ids now q db₀ db₁ r (rw (failed, commit_or_fail) at handled)))
            | inr ((r', db'), done) ↦
                let pair : (db', some r') ≡ (db₁, some r) = rw (done, commit_or_fail) at handled in
                (db₀, done ∙ ap (λ o. some o) (ground (arith, pair)))
          ]
    ]

-- The tables but for the receipts and their processing.
abbrev pub Unchanged : Db → Db → Type 0
Unchanged db db' =
    (db'.events ≡ db.events)
    × (db'.setups ≡ db.setups)
    × (db'.history ≡ db.history)
    × (db'.outbox ≡ db.outbox)
    × (db'.attempts ≡ db.attempts)
    × (db'.dead_letters ≡ db.dead_letters)

abbrev again_row : Setting → Ids → Time → Request → Event → EventRow → Db → Db
again_row s ids now q e x db = record db {
  receipts = receipt s ids now q ∷ db.receipts;
  processing =
      processed (delivery s ids now q) e Status.idempotent_duplicate Note.same_content
        (some x.ingest_id)
      ∷ db.processing;
}

abbrev pub again_result : Setting → Ids → Time → Request → Event → IngestResult
again_result s ids now q e =
    record (result (delivery s ids now q) e (ResultCode.done Status.idempotent_duplicate) 200) {
      duplicate = true;
      transition_code = some Note.same_content;
    }

redeliver-receive :
    (s : Setting) (ids : Ids) (now : Time) (q : Request) (e : Event) (x : EventRow) (db : Db)
    → examine s now q ≡ good e
    → find Receipt.ingest_id ids.ingest_id db.receipts ≡ none
    → find EventRow.event_id e.event_id db.events ≡ some x
    → str_eq x.canonical_hash (s.hashes.canonical e.canonical) ≡ true
    → receive s ids now q db ≡ (again_row s ids now q e x db, some (again_result s ids now q e))
unfolding receive handle commit_or_fail commit_validated redeliver insert_processing store_raw
    has_receipt
redeliver-receive s ids now q e x db g free known same =
    let there : str_eq ids.ingest_id ids.ingest_id ≡ true =
      (str_eq_iff ids.ingest_id ids.ingest_id).1 refl in
    rw (free, receive)
      (rw (g, handle)
        (rw (known, commit_or_fail, commit_validated)
          (rw (same, redeliver) (unfold find in rw there))))

-- A call that is answered, otherwise than by a conflict of its event id or a failure of the database, to
-- a request that passes the checks; any run of calls; then a request that passes the checks with the same
-- event, under a new ingest id: it is answered IDEMPOTENT_DUPLICATE, with status 200, and it changes no
-- table but the receipts and their processing.
pub redelivery_changes_nothing :
    (s : Setting) (ids ids' : Ids) (now now' : Time) (q q' : Request) (e : Event) (db db₁ db₂ : Db)
    (r : IngestResult)
    → examine s now q ≡ good e
    → receive s ids now q db ≡ (db₁, some r)
    → r.result_code ≢ ResultCode.refused event_id_conflict
    → r.result_code ≢ ResultCode.refused persistence_failure
    → Run s db₁ db₂
    → examine s now' q' ≡ good e
    → find Receipt.ingest_id ids'.ingest_id db₂.receipts ≡ none
    → (db₃ : Db) × (receive s ids' now' q' db₂ ≡ (db₃, some (again_result s ids' now' q' e)))
      × Unchanged db₂ db₃
redelivery_changes_nothing s ids ids' now now' q q' e db db₁ db₂ r g first fine up run g' free =
    let (db₀, done) = received-commit s ids now q e db db₁ r g first up in
    let (x, stored, same) = commit-IsStored s.hashes (delivery s ids now q) e db₀ db₁ r done fine in
    let kept = Run-R AnyEvent Keeps Keeps-Frame s (λ t i c. tt) db₁ db₂ run e.event_id x stored in
    (
      again_row s ids' now' q' e x db₂,
      redeliver-receive s ids' now' q' e x db₂ g' free kept same,
      (refl, refl, refl, refl, refl, refl),
    )
