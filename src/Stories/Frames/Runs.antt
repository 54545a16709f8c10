-- ===== src/Stories/Frames/Runs.antt =====
-- A relation that every insert respects holds between the ends of a call and of a run.
use trading_ai_pipeline.Stories.Rows.{Db}
use trading_ai_pipeline.Stories.Step.{Setting, Call, Commits, Run}
use trading_ai_pipeline.Stories.Step
use trading_ai_pipeline.Stories.Frames.Rules.{Frame}
use trading_ai_pipeline.Stories.Frames.Enqueues.{enqueue-Respects}
use trading_ai_pipeline.Stories.Frames.Captures.{
  claim_capture-Respects, capture_failure-Respects, record_capture-Respects,
}
use trading_ai_pipeline.Stories.Frames.Works.{
  claim_next-Respects, begin_attempt-Respects, technical_failure-Respects, complete-Respects,
  close_story-Respects, heartbeat-Respects,
}

module _ (s : Setting) {R : Db → Db → Type 0} (p : Frame s.hashes R) where
  pub Commits-Frame : (c : Call) (db db' : Db) → Commits s c db db' → R db db'
  Commits-Frame (Step.enqueue event at request) db db' (a, e) =
      enqueue-Respects p event at request db a db' e
  Commits-Frame (Step.claim_capture worker token at lease) db db' (a, e) =
      claim_capture-Respects p worker token at lease db a db' e
  Commits-Frame (Step.fail_capture job at worker token code detail most) db db' (a, e) =
      capture_failure-Respects p job at worker token code detail most db a db' e
  Commits-Frame (Step.capture job ev at worker token) db db' (a, e) =
      record_capture-Respects p s.checks job ev at worker token db a db' e
  Commits-Frame (Step.claim worker at lease wanted) db db' (a, e) =
      claim_next-Respects p worker at lease wanted db a db' e
  Commits-Frame (Step.begin_attempt j model manifest client at) db db' (a, e) =
      begin_attempt-Respects p j model manifest client at db a db' e
  Commits-Frame (Step.finish b g r at) db db' (a, e) =
      complete-Respects p s.library b g r at db a db' e
  Commits-Frame (Step.fail_job j code detail at model) db db' (a, e) =
      technical_failure-Respects p j code detail at model db a db' e
  Commits-Frame (Step.close story decision at actor) db db' (a, e) =
      close_story-Respects p s.library story decision at actor db a db' e
  Commits-Frame (Step.beat worker enabled at error) db db' (a, e) =
      heartbeat-Respects p worker enabled at error db a db' e

  pub Run-Frame : {db db' : Db} → Run s db db' → R db db'
  Run-Frame {db} Run.here = p.rfl db
  Run-Frame {db} {db'} (Run.next {db1 = db1} c run step) =
      p.trans db db1 db' (Run-Frame run) (Commits-Frame c db1 db' step)
