-- ===== src/Stories/Step.antt =====
-- The analysis store as a transition system. A step is one transaction that commits; one that raises
-- is rolled back, and is no step. Times, worker names, lease tokens and the answers of the capture and
-- of the provider come from outside, so a step takes any.
use trading_ai_pipeline.Base.{ℕ, ◌≡◌, String, Bool, Option}
use trading_ai_pipeline.Base.Text.{Text}
use trading_ai_pipeline.Output.Stamp.{Time}
use trading_ai_pipeline.Stories.Rows.{
  Evidence, EvidenceRequest, JobRow, Db, Hashes, Transaction, ok,
}
use trading_ai_pipeline.Stories.Enqueue.{TriggerEvent, enqueue_analysis_trigger}
use trading_ai_pipeline.Stories.Capture.{Checks, claim_capture_job, capture_failure, record_capture}
use trading_ai_pipeline.Stories.Work.{Bundle, claim_next, begin_provider_attempt, technical_failure}
use trading_ai_pipeline.Stories.Complete.{
  Grade, GradeLibrary, Response, complete, close_story, heartbeat,
}

-- What the store takes from outside the repository, and the decisions on a capture.
pub record Setting : Type 0 where
  pub hashes : Hashes
  pub checks : Checks
  pub library : GradeLibrary

-- The calls of the store that write.
pub data Call : Type 0 where
  enqueue : TriggerEvent → Time → Option EvidenceRequest → Call
  claim_capture : Text → Text → Time → ℕ → Call
  fail_capture : String → Time → Text → Text → String → Text → ℕ → Call
  capture : String → Evidence → Time → Text → Text → Call
  claim : Text → Time → ℕ → Option String → Call
  begin_attempt : JobRow → String → String → String → Time → Call
  finish : Bundle → Grade → Response → Time → Call
  fail_job : JobRow → String → Text → Time → Option String → Call
  close : String → String → Time → String → Call
  beat : Text → Bool → Time → Option String → Call

abbrev pub Committed : {A : Type 0} → Transaction A → Db → Db → Type 0
Committed {A} m db db' = (a : A) × (m db ≡ ok (a, db'))

abbrev pub Commits : Setting → Call → Db → Db → Type 0
Commits s (enqueue event at request) =
    Committed (enqueue_analysis_trigger s.hashes event at request)
Commits s (claim_capture worker token at lease) =
    Committed (claim_capture_job s.hashes worker token at lease)
Commits s (fail_capture job at worker token code detail most) =
    Committed (capture_failure s.hashes job at worker token code detail most)
Commits s (capture job e at worker token) =
    Committed (record_capture s.hashes s.checks job e at worker token)
Commits s (claim worker at lease wanted) = Committed (claim_next s.hashes worker at lease wanted)
Commits s (begin_attempt j model manifest client at) =
    Committed (begin_provider_attempt s.hashes j model manifest client at)
Commits s (finish b g r at) = Committed (complete s.hashes s.library b g r at)
Commits s (fail_job j code detail at model) =
    Committed (technical_failure s.hashes j code detail at model)
Commits s (close story decision at actor) =
    Committed (close_story s.hashes s.library story decision at actor)
Commits s (beat worker enabled at error) = Committed (heartbeat worker enabled at error)

-- A run of the store, over any calls.
pub data Run (s : Setting) (db : Db) : Db → Type 0 where
  here : Run s db db
  next : {db1 db2 : Db} (c : Call) → Run s db db1 → Commits s c db1 db2 → Run s db db2
