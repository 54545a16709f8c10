-- ===== src/Output/Outbox/RowStep/Life.antt =====
-- What the state machine of one delivery guarantees.
use trading_ai_pipeline.Base.{◌≡◌, true, Option, none, some, is_some, arith}
use trading_ai_pipeline.Output.Rows.{Delivery, Digest, is_completed, is_claimed}
use trading_ai_pipeline.Output.Outbox.Create.{new_delivery}
use trading_ai_pipeline.Output.Outbox.RowStep.{
  RowStep, stay, create, exhaust, start, finish, abandon, reset, reconcile,
}

-- A completed delivery is never written again.
pub RowStep-completed :
    {d : Digest} {o p : Option Delivery} (r : Delivery)
    → RowStep d o p
    → o ≡ some r
    → is_completed r.status ≡ true
    → p ≡ some r
RowStep-completed q stay e c = e
RowStep-completed q (create thesis type) e c = cc
RowStep-completed q (exhaust r live free) e c = ground arith
RowStep-completed q (start r now limit worker token live free under due) e c = ground arith
RowStep-completed q (finish r result next_retry token held) e c = ground arith
RowStep-completed q (abandon r now held) e c = ground arith
RowStep-completed q (reset r live) e c = ground arith
RowStep-completed q (reconcile r found reference now open_) e c = ground arith

-- The claim columns and the completion time agree with the status.
pub record IsConsistent (r : Delivery) : Type 0 where
  pub token : is_some r.claim_token ≡ is_claimed r.status
  pub owner : is_some r.claim_owner ≡ is_claimed r.status
  pub since : is_some r.claimed_at ≡ is_claimed r.status
  pub completed : is_completed r.status ≡ true → is_some r.completion_at ≡ true
  pub claimed_once : is_claimed r.status ≡ true → is_some r.first_attempt_at ≡ true

abbrev pub AllConsistent : Option Delivery → Type 0
AllConsistent none = Unit
AllConsistent (some r) = IsConsistent r

pub RowStep-IsConsistent :
    {d : Digest} {o p : Option Delivery} → RowStep d o p → AllConsistent o → AllConsistent p
RowStep-IsConsistent stay h = h
RowStep-IsConsistent (create thesis type) h = unfold new_delivery in ground arith
RowStep-IsConsistent (exhaust r live free) h = ground arith
RowStep-IsConsistent (start r now limit worker token live free under due) h = ground arith
RowStep-IsConsistent (finish r result next_retry token held) h = ground arith
RowStep-IsConsistent (abandon r now held) h = ground arith
RowStep-IsConsistent (reset r live) h = ground arith
RowStep-IsConsistent (reconcile r found reference now open_) h = ground arith
