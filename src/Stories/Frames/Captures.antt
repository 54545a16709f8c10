-- ===== src/Stories/Frames/Captures.antt =====
-- The transactions on captures respect what the inserts respect.
use trading_ai_pipeline.Base.{ℕ, String, leb, Option, none, some}
use trading_ai_pipeline.Base.Text.{Text}
use trading_ai_pipeline.Output.Stamp.{Time}
use trading_ai_pipeline.Stories.Rows.{Millis, Evidence, JobRow, StatusRow, Db, Hashes}
use trading_ai_pipeline.Stories.Capture.{
  Checks, after, expire_capture, take_capture, expire_or_take, claim_capture_job, check_expiry,
  check_lease, exhaust_capture, retry_capture, settle_failure, capture_failure, check_capture,
  store_capture, record_capture,
}
use trading_ai_pipeline.Stories.Frames.Rules.{
  Frame, Respects, if-Respects, pure-Respects, read-Respects, fail-Respects, require-Respects,
  require_some-Respects, >>=-Respects, >>-Respects,
}

module _ {h : Hashes} {R : Db → Db → Type 0} (p : Frame h R) where
  pub after-Respects : (at : Time) (n : ℕ) → Respects R (after at n)
  unfolding after
  after-Respects at n = >>=-Respects p (require_some-Respects p _ _) (λ t. pure-Respects p _)

  expire_capture-Respects :
      (worker : Text) (at : Time) (j : JobRow) → Respects R (expire_capture h worker at j)
  unfolding expire_capture
  expire_capture-Respects worker at j = >>=-Respects p (after-Respects at 30) (λ retry_at.
      >>-Respects p (p.status _) (>>-Respects p (p.audit _ _ _ _ _) (pure-Respects p _)))

  take_capture-Respects :
      (worker token : Text) (at : Time) (n : ℕ) (j : Option JobRow)
      → Respects R (take_capture h worker token at n j)
  unfolding take_capture
  take_capture-Respects worker token at n none = pure-Respects p _
  take_capture-Respects worker token at n (some j) =
      >>=-Respects p (after-Respects at n) (λ expiry.
        >>-Respects p (p.status _) (>>-Respects p (p.audit _ _ _ _ _) (pure-Respects p _)))

  expire_or_take-Respects :
      (worker token : Text) (at : Time) (n : ℕ) (j : Option JobRow)
      → Respects R (expire_or_take h worker token at n j)
  unfolding expire_or_take
  expire_or_take-Respects worker token at n (some j) = expire_capture-Respects worker at j
  expire_or_take-Respects worker token at n none =
      >>=-Respects p (read-Respects p _) (λ j. take_capture-Respects worker token at n j)

  pub claim_capture-Respects :
      (worker token : Text) (at : Time) (n : ℕ) → Respects R (claim_capture_job h worker token at n)
  unfolding claim_capture_job
  claim_capture-Respects worker token at n =
      >>-Respects p (require-Respects p _ _)
        (>>=-Respects p (read-Respects p _) (λ j. expire_or_take-Respects worker token at n j))

  check_expiry-Respects : (at : Millis) (lease : Option Millis) → Respects R (check_expiry at lease)
  unfolding check_expiry
  check_expiry-Respects at none = fail-Respects p _
  check_expiry-Respects at (some lease) = require-Respects p _ _

  check_lease-Respects :
      (owner : Text) (at : Millis) (s : Option StatusRow) → Respects R (check_lease owner at s)
  unfolding check_lease
  check_lease-Respects owner at none = fail-Respects p _
  check_lease-Respects owner at (some s) =
      >>-Respects p (require-Respects p _ _) (check_expiry-Respects at _)

  exhaust_capture-Respects :
      (job : String) (at : Time) (worker : Text) (code : String) (detail : Text) (n : ℕ)
      → Respects R (exhaust_capture h job at worker code detail n)
  unfolding exhaust_capture
  exhaust_capture-Respects job at worker code detail n =
      >>-Respects p (p.status _) (>>-Respects p (p.audit _ _ _ _ _) (pure-Respects p _))

  retry_capture-Respects :
      (job : String) (at : Time) (worker : Text) (code : String) (detail : Text) (n : ℕ)
      → Respects R (retry_capture h job at worker code detail n)
  unfolding retry_capture
  retry_capture-Respects job at worker code detail n =
      >>=-Respects p (after-Respects at _) (λ retry_at.
        >>-Respects p (p.status _) (>>-Respects p (p.audit _ _ _ _ _) (pure-Respects p _)))

  settle_failure-Respects :
      (job : String) (at : Time) (worker : Text) (code : String) (detail : Text) (most n : ℕ)
      → Respects R (settle_failure h job at worker code detail most n)
  unfolding settle_failure
  settle_failure-Respects job at worker code detail most n =
      if-Respects p (leb most n) (exhaust_capture-Respects job at worker code _ n)
        (retry_capture-Respects job at worker code _ n)

  pub capture_failure-Respects :
      (job : String) (at : Time) (worker token : Text) (code : String) (detail : Text) (most : ℕ)
      → Respects R (capture_failure h job at worker token code detail most)
  unfolding capture_failure
  capture_failure-Respects job at worker token code detail most =
      >>-Respects p (require-Respects p _ _) (
        >>=-Respects p (read-Respects p _) (λ latest.
          >>-Respects p (check_lease-Respects _ _ latest) (
            >>=-Respects p (read-Respects p _)
              (λ failed. settle_failure-Respects job at worker code detail most _))))

  check_capture-Respects :
      (c : Checks) (j : JobRow) (e : Evidence) (at : Time) → Respects R (check_capture h c j e at)
  unfolding check_capture
  check_capture-Respects c j e at = >>-Respects p (require-Respects p _ _) (
      >>-Respects p (require-Respects p _ _) (
        >>-Respects p (require-Respects p _ _) (
          >>-Respects p (require-Respects p _ _)
            (>>-Respects p (require-Respects p _ _) (require-Respects p _ _)))))

  store_capture-Respects :
      (job : String) (e : Evidence) (at : Millis) → Respects R (store_capture h job e at)
  unfolding store_capture
  store_capture-Respects job e at =
      >>-Respects p (p.capture _) (>>-Respects p (p.status _) (p.audit _ _ _ _ _))

  pub record_capture-Respects :
      (c : Checks) (job : String) (e : Evidence) (at : Time) (worker token : Text)
      → Respects R (record_capture h c job e at worker token)
  unfolding record_capture
  record_capture-Respects c job e at worker token = >>-Respects p (require-Respects p _ _) (
      >>=-Respects p (read-Respects p _) (λ found.
        >>=-Respects p (require_some-Respects p found _) (λ j.
          >>-Respects p (check_capture-Respects c j e at) (
            >>=-Respects p (read-Respects p _) (λ latest.
              >>-Respects p (check_lease-Respects _ _ latest) (store_capture-Respects job e _))))))
