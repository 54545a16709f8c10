-- ===== src/Stories/Failures.antt =====
-- capture_failure: who may report a failure, and when the next attempt is due.
use Prim.Native.Nat.{◌^◌}
use trading_ai_pipeline.Base.{
  ℕ, zero, suc, ◌+◌, ◌-◌, ◌≡◌, ◌≤◌, ◌<◌, refl, ap, String, true, leb, List, ◌∷◌, Option, none, some,
  str_eq_iff, arith, ◌⊎◌, Bool-cases, inl, inr,
}
use trading_ai_pipeline.Base.Text.{Text, text_eq_sound}
use trading_ai_pipeline.Base.Table.{find}
use trading_ai_pipeline.Output.Stamp.{Time, plus_seconds}
use trading_ai_pipeline.Stories.Rows.{Millis, utc_z, JobStatus, StatusRow, Db, Hashes, ok, fail}
use trading_ai_pipeline.Stories.Tables.{latest_status}
use trading_ai_pipeline.Stories.Capture.{
  CaptureFailure, is_claimed, is_owner, check_lease, check_expiry, capture_owner, failed_captures,
  retry_delay, failed_row, bounded, exhaust_capture, retry_capture, settle_failure, capture_failure,
}
use trading_ai_pipeline.Stories.Inversion.{
  >>=-ok, >>-ok, read-ok, require-ok, after-ok, status_then_audit-ok,
}

-- The claim that a report needs: its owner's, and not run out.
abbrev pub Holds : Text → Millis → Option StatusRow → Type 0
Holds owner at latest =
    (r : StatusRow) × (lease : Millis) × (latest ≡ some r)
    × (is_claimed r.status ≡ true)
    × (r.worker_id ≡ some owner)
    × (r.lease_expires_at ≡ some lease)
    × (at ≤ lease)

is_owner-eq : (owner : Text) (w : Option Text) → is_owner owner w ≡ true → w ≡ some owner
is_owner-eq owner none e = absurd (ground arith)
is_owner-eq owner (some w) e = ap some (text_eq_sound w owner e)

check_expiry-ok :
    (at : Millis) (lease : Option Millis) (db db' : Db) (u : Unit {0})
    → check_expiry at lease db ≡ ok (u, db')
    → (l : Millis) × (lease ≡ some l) × (at ≤ l) × (db ≡ db')
unfolding check_expiry fail
check_expiry-ok at none db db' u e = absurd (ground arith)
check_expiry-ok at (some l) db db' u e =
    let (fits, same) = require-ok (leb at l) _ db db' u e in (l, refl, ground (arith, fits), same)

check_lease-ok :
    (owner : Text) (at : Millis) (latest : Option StatusRow) (db db' : Db) (u : Unit {0})
    → check_lease owner at latest db ≡ ok (u, db')
    → Holds owner at latest × (db ≡ db')
unfolding check_lease fail
check_lease-ok owner at none db db' u e = absurd (ground arith)
check_lease-ok owner at (some r) db db' u e =
    let (db1, first, rest) = >>-ok _ _ db u db' e in
    let (fits, same) = require-ok _ _ db db1 tt first in
    let (lease, some_l, early, same') = check_expiry-ok at r.lease_expires_at db1 db' u rest in
    let claimed : is_claimed r.status ≡ true = ground (arith, fits) in
    let owned : is_owner owner r.worker_id ≡ true = ground (arith, fits) in
    (
      (r, lease, refl, claimed, is_owner-eq owner r.worker_id owned, some_l, early),
      ground (arith, same, same'),
    )

-- The two ends of a failure.
abbrev pub Exhausted : String → Time → Text → Text → Db → Type 0
Exhausted job at worker detail db' =
    latest_status job db'
    ≡ some (
        failed_row job JobStatus.technical_failure (utc_z at) worker none "CAPTURE_RETRY_EXHAUSTED"
          (bounded 400 detail))

abbrev pub Scheduled : String → Time → Text → String → Text → ℕ → Db → Type 0
Scheduled job at worker code detail n db' =
    (t : Time) × (plus_seconds at (retry_delay n) ≡ some t)
    × (latest_status job db'
        ≡ some (
            failed_row job JobStatus.pending_capture (utc_z at) worker (some (utc_z t)) code
              (bounded 400 detail)))
    × (failed_captures job db' ≡ n)

latest_first :
    (r : StatusRow) (rows : List StatusRow) → find StatusRow.job_id r.job_id (r ∷ rows) ≡ some r
unfolding find
latest_first r rows = ground (arith, str_eq_iff r.job_id r.job_id)

exhaust-ok :
    (h : Hashes) (job : String) (at : Time) (worker : Text) (code : String) (detail : Text) (n : ℕ)
    (f : CaptureFailure) (db db' : Db)
    → exhaust_capture h job at worker code (bounded 400 detail) n db ≡ ok (f, db')
    → Exhausted job at worker detail db'
unfolding exhaust_capture latest_status
exhaust-ok h job at worker code detail n f db db' e =
    let row =
      failed_row job JobStatus.technical_failure (utc_z at) worker none "CAPTURE_RETRY_EXHAUSTED"
        (bounded 400 detail) in
    let (_, written) = status_then_audit-ok h row _ _ _ _ _ _ f db db' e in
    rw (← written) (latest_first row db.statuses)

retry-ok :
    (h : Hashes) (job : String) (at : Time) (worker : Text) (code : String) (detail : Text)
    (f : CaptureFailure) (db db' : Db)
    → retry_capture h job at worker code (bounded 400 detail) (failed_captures job db + 1) db
      ≡ ok (f, db')
    → Scheduled job at worker code detail (failed_captures job db + 1) db'
unfolding retry_capture latest_status failed_captures
retry-ok h job at worker code detail f db db' e =
    let n = failed_captures job db + 1 in
    let (stamp, db1, first, rest) = >>=-ok _ _ db f db' e in
    let (t, sum, is_stamp, same) = after-ok at (retry_delay n) stamp db db1 first in
    let row =
      failed_row job JobStatus.pending_capture (utc_z at) worker (some (utc_z t)) code
        (bounded 400 detail) in
    let row' =
      failed_row job JobStatus.pending_capture (utc_z at) worker (some stamp) code
        (bounded 400 detail) in
    let (_, written) = status_then_audit-ok h row' _ _ _ _ _ _ f db1 db' rest in
    let is_row : row' ≡ row = rw is_stamp in
    let statuses : row ∷ db.statuses ≡ db'.statuses =
      rw (← is_row, same) (ap Db.statuses written) in
    (
      t,
      sum,
      rw (← statuses) (latest_first row db.statuses),
      rw (← statuses) (ground (arith, str_eq_iff job job)),
    )

-- A failure that is accepted comes from the owner of a claim that has not run out. Counted with the
-- failures before it, it ends the job once the maximum is reached, and otherwise puts the job back,
-- counts as one more failure, and makes the next attempt due after the delay of that count.
pub failure_settles :
    (h : Hashes) (job : String) (at : Time) (worker token : Text) (code : String) (detail : Text)
    (most : ℕ) (f : CaptureFailure) (db db' : Db)
    → capture_failure h job at worker token code detail most db ≡ ok (f, db')
    → Holds (capture_owner worker token) (utc_z at) (latest_status job db)
      × (((most ≤ failed_captures job db + 1) × Exhausted job at worker detail db')
          ⊎ ((failed_captures job db + 1 < most)
              × Scheduled job at worker code detail (failed_captures job db + 1) db'))
unfolding capture_failure settle_failure
failure_settles h job at worker token code detail most f db db' e =
    let (db1, first, rest) = >>-ok _ _ db f db' e in
    let same1 = (require-ok _ _ db db1 tt first).1 in
    let (db2, second, rest2) = >>-ok _ _ db1 f db' (read-ok _ _ db1 f db' rest) in
    let (holds, same2) = check_lease-ok _ (utc_z at) (latest_status job db1) db1 db2 tt second in
    let same : db ≡ db2 = ground (arith, same1, same2) in
    let settled = rw (← same) at (read-ok _ _ db2 f db' rest2) in
    (
      rw same1 holds,
      (elim (Bool-cases (leb most (failed_captures job db + 1))) [
        | inl c ↦
            inl (
              ground (arith, c),
              exhaust-ok h job at worker code detail _ f db db' (rw c at settled),
            )
        | inr c ↦
            inr (ground (arith, c), retry-ok h job at worker code detail f db db' (rw c at settled))
      ]),
    )

pow_pos : (n : ℕ) → 1 ≤ 2 ^ n
pow_pos zero = omega arith
pow_pos (suc n) = omega (arith, pow_pos n)

pow_mono : (m n : ℕ) → m ≤ n → 2 ^ m ≤ 2 ^ n
pow_mono zero n h = pow_pos n
pow_mono (suc m) zero h = absurd (omega arith)
pow_mono (suc m) (suc n) h = omega (arith, pow_mono m n (omega arith))

-- The delay before the next attempt is between 30 seconds and 15 minutes, and never falls as the
-- failures grow.
pub retry_delay_bounds :
    (m n : ℕ)
    → m ≤ n
    → (30 ≤ retry_delay m) × (retry_delay m ≤ retry_delay n) × (retry_delay n ≤ 900)
unfolding retry_delay
retry_delay_bounds m n h =
    let low = pow_pos (m - 1) in
    let grows = pow_mono (m - 1) (n - 1) (omega arith) in
    (omega (arith, low), omega (arith, grows), omega arith)
