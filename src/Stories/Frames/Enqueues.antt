-- ===== src/Stories/Frames/Enqueues.antt =====
-- Every transaction of the store is built from reads, guards and inserts, so a relation that the
-- inserts respect is respected by each of them.
use trading_ai_pipeline.Base.{
  ◌≡◌, refl, String, Bool, true, false, Option, none, some, str_eq, arith,
}
use trading_ai_pipeline.Output.Stamp.{Time}
use trading_ai_pipeline.Stories.Rows.{
  Millis, EvidenceRequest, StoryRow, JobRow, Db, Hashes, Transaction, ◌>>=◌, ◌>>◌, StoreError,
  require, require_some, read, pure, fail, ok,
}
use trading_ai_pipeline.Stories.Enqueue
use trading_ai_pipeline.Stories.Enqueue.{TriggerEvent, Enqueued}
use trading_ai_pipeline.Stories.Frames.Rules.{
  Frame, Respects, pure-Respects, read-Respects, require-Respects, require_some-Respects,
  >>=-Respects, >>-Respects, Numbered, RespectsAt, >>=-RespectsAt, read-RespectsAt, >>-RespectsAt,
}

-- A transaction that leaves the database as it is.
abbrev Reads : {A : Type 0} → Transaction A → Type 0
Reads {A} m = (db : Db) (a : A) (db' : Db) → m db ≡ ok (a, db') → db ≡ db'

require_some-Reads : {A : Type 0} (o : Option A) (x : StoreError) → Reads (require_some o x)
unfolding require_some pure fail
require_some-Reads none x db a db' e = absurd (ground arith)
require_some-Reads (some b) x db a db' e = ground arith

delta_request-Reads : (story : String) → Reads (Enqueue.e1_delta_evidence_request story)
unfolding Enqueue.e1_delta_evidence_request ◌>>=◌ ◌>>◌ read require require_some pure fail
delta_request-Reads story db a db' e = ground arith

module _ {h : Hashes} {R : Db → Db → Type 0} (p : Frame h R) where
  queue_job-Respects :
      (at : Millis) (j : JobRow) (db : Db)
      → Numbered j db
      → RespectsAt R db (Enqueue.queue_job h at j)
  unfolding Enqueue.queue_job
  queue_job-Respects at j db n =
      >>-RespectsAt p _ _ db (p.job j db n)
        (>>-Respects p (p.status _) (>>-Respects p (p.audit _ _ _ _ _) (pure-Respects p _)))

  record_orphan-Respects :
      (event : TriggerEvent) (at : Millis) → Respects R (Enqueue.record_orphan h event at)
  unfolding Enqueue.record_orphan
  record_orphan-Respects event at =
      >>-Respects p (p.orphan _) (>>-Respects p (p.audit _ _ _ _ _) (pure-Respects p _))

  delta_request-Respects : (story : String) → Respects R (Enqueue.e1_delta_evidence_request story)
  unfolding Enqueue.e1_delta_evidence_request
  delta_request-Respects story = >>=-Respects p (read-Respects p _) (λ found.
      >>=-Respects p (require_some-Respects p found _) (λ job.
        >>-Respects p (require-Respects p _ _)
          (>>-Respects p (require-Respects p _ _) (pure-Respects p _))))

  -- The parts of `queue_delta` before the insert only read.
  queue_delta-Respects :
      (event : TriggerEvent) (at : Millis) (story : String)
      → Respects R (Enqueue.queue_delta h event at story)
  unfolding Enqueue.queue_delta
  queue_delta-Respects event at story db = read-RespectsAt p _ _ db (
      read-RespectsAt p _ _ db (
        read-RespectsAt p _ _ db (
          >>=-RespectsAt p _ _ db (delta_request-Respects story db) (λ request db1 e1.
            let k1 = delta_request-Reads story db request db1 e1 in
            read-RespectsAt p _ _ db1 (
              >>=-RespectsAt p _ _ db1 (require_some-Respects p _ _ db1) (λ baseline db2 e2.
                let k2 = require_some-Reads _ _ db1 baseline db2 e2 in
                queue_job-Respects at _ db2 (rw (← k2, ← k1))))))))

  enqueue_e1-Respects :
      (event : TriggerEvent) (at : Millis) (story : Option StoryRow)
      → Respects R (Enqueue.enqueue_e1 h event at story)
  unfolding Enqueue.enqueue_e1
  enqueue_e1-Respects event at none = record_orphan-Respects event at
  enqueue_e1-Respects event at (some s) = queue_delta-Respects event at s.story_id

  facts-Respects : (event : TriggerEvent) → Respects R (Enqueue.liquidity_event_facts event)
  unfolding Enqueue.liquidity_event_facts
  facts-Respects event = >>-Respects p (require-Respects p _ _) (pure-Respects p _)

  enqueue_touch-Respects :
      (event : TriggerEvent) (at : Millis) (request : Option EvidenceRequest)
      → Respects R (Enqueue.enqueue_touch h event at request)
  unfolding Enqueue.enqueue_touch
  enqueue_touch-Respects event at request = >>-Respects p (p.story _) (
      >>=-Respects p (facts-Respects event)
        (λ facts. >>-Respects p (p.audit _ _ _ _ _) (λ db. queue_job-Respects at _ db refl)))

  trigger_branches :
      {A : Type 0} (a b : Bool) {x y z : Transaction A}
      → Respects R x
      → Respects R y
      → Respects R z
      → Respects R (Enqueue.branch a b x y z)
  unfolding Enqueue.branch
  trigger_branches true b x y z = x
  trigger_branches false true x y z = y
  trigger_branches false false x y z = z

  pub enqueue-Respects :
      (event : TriggerEvent) (at : Time) (request : Option EvidenceRequest)
      → Respects R (Enqueue.enqueue_analysis_trigger h event at request)
  unfolding Enqueue.enqueue_analysis_trigger
  enqueue-Respects event at request =
      trigger_branches (str_eq event.event "RENKO_E1") (str_eq event.event "LIQ_TOUCH")
        (>>=-Respects p (read-Respects p _) (λ story. enqueue_e1-Respects event _ story))
        (enqueue_touch-Respects event _ request) (pure-Respects p _)
