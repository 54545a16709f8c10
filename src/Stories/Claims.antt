-- ===== src/Stories/Claims.antt =====
-- What claim_capture_job and claim_next grant, and what they leave alone.
use trading_ai_pipeline.Base.{
  ℕ, ◌≡◌, refl, ap, String, true, false, ◌∷◌, Memᴰ, Option, none, some, str_eq_iff, arith,
  Bool-cases, inl, inr, ◌⊎◌, any-false,
}
use trading_ai_pipeline.Base.Text.{Text}
use trading_ai_pipeline.Base.Table.{find}
use trading_ai_pipeline.Output.Stamp.{Time, plus_seconds}
use trading_ai_pipeline.Stories.Rows.{Millis, utc_z, JobRow, StatusRow, Db, Hashes, ok}
use trading_ai_pipeline.Stories.Tables.{latest_status, is_completed, is_closed, first_job}
use trading_ai_pipeline.Stories.Capture.{is_claimed, claimed_row}
use trading_ai_pipeline.Stories.Work.{
  claim_next, take_job, can_work, awaits_work, is_prior, has_unfinished_prior, is_captured,
  lease_passed, not_capture, is_wanted,
}
use trading_ai_pipeline.Stories.Inversion.{>>=-ok, read-ok, pure-ok, after-ok, status_then_audit-ok}
use trading_ai_pipeline.Stories.Selection.{first_job-select}

-- A job is taken with a status of CLAIMED, and nothing else of the statuses changes.
take_job-ok :
    (h : Hashes) (worker : Text) (stamp expiry : Millis) (found : Option JobRow) (db db' : Db)
    (j : JobRow)
    → take_job h worker stamp expiry found db ≡ ok (some j, db')
    → (found ≡ some j) × (claimed_row j.job_id stamp worker expiry ∷ db.statuses ≡ db'.statuses)
unfolding take_job
take_job-ok h worker stamp expiry none db db' j e =
    let k = (pure-ok none (some j) db db' e).0 in absurd (ground (arith, k))
take_job-ok h worker stamp expiry (some q) db db' j e =
    let (same, written) = status_then_audit-ok h _ stamp _ _ _ _ (some q) (some j) db db' e in
    let k : q ≡ j = ground (arith, same) in (same, rw (← k) (ap Db.statuses written))

pub claim_next-ok :
    (h : Hashes) (worker : Text) (at : Time) (n : ℕ) (wanted : Option String) (db db' : Db)
    (j : JobRow)
    → claim_next h worker at n wanted db ≡ ok (some j, db')
    → (t : Time) × (plus_seconds at n ≡ some t)
      × (first_job (can_work (utc_z at) wanted db) db ≡ some j)
      × (claimed_row j.job_id (utc_z at) worker (utc_z t) ∷ db.statuses ≡ db'.statuses)
unfolding claim_next
claim_next-ok h worker at n wanted db db' j e =
    let (expiry, db1, first, rest) = >>=-ok _ _ db (some j) db' e in
    let (t, sum, stamp, same) = after-ok at n expiry db db1 first in
    let taken =
      take_job-ok h worker (utc_z at) expiry (first_job (can_work (utc_z at) wanted db1) db1) db1
        db' j (read-ok _ _ db1 (some j) db' rest) in
    (t, sum, rw same (taken.0), rw (stamp, same) (taken.1))

-- The states from which a worker may take a job: captured, or claimed by a worker that is not a capture
-- and whose lease has run out.
abbrev pub Workable : Millis → StatusRow → Type 0
Workable at r =
    (is_captured r.status ≡ true)
    ⊎ ((is_claimed r.status ≡ true)
        × (lease_passed at r.lease_expires_at ≡ true)
        × (not_capture r.worker_id ≡ true))

workable :
    (at : Millis) (latest : Option StatusRow)
    → awaits_work at latest ≡ true
    → (r : StatusRow) × (latest ≡ some r) × Workable at r
unfolding awaits_work
workable at none e = absurd (ground arith)
workable at (some r) e = elim (Bool-cases (is_captured r.status)) [
  | inl c ↦ (r, refl, inl c)
  | inr c ↦ (r, refl, inr (ground (arith, e, c), ground (arith, e, c), ground (arith, e, c)))
]

-- A job before this one in its story, with a status that is not COMPLETED.
abbrev pub EarlierUnfinished : JobRow → Db → Type 0
EarlierUnfinished j db =
    (prior : JobRow) × (r : StatusRow) × Memᴰ prior db.jobs
    × (is_prior j prior ≡ true)
    × (latest_status prior.job_id db ≡ some r)
    × (is_completed r.status ≡ false)

-- Every job that claim_next takes, a first one of a story or a later one: it is a job of the store, and
-- the one that was asked for; it is captured, or the lease of a worker that is no capture has run out;
-- its story is not closed; no earlier job of the story has a status other than COMPLETED; and the job is
-- claimed from then on for the given seconds.
pub claim_in_order :
    (h : Hashes) (worker : Text) (at : Time) (n : ℕ) (wanted : Option String) (db db' : Db)
    (j : JobRow)
    → claim_next h worker at n wanted db ≡ ok (some j, db')
    → Memᴰ j db.jobs
      × (is_wanted wanted j ≡ true)
      × ((q : StatusRow) × (latest_status j.job_id db ≡ some q) × Workable (utc_z at) q)
      × (is_closed j.story_id db ≡ false)
      × (¬ (EarlierUnfinished j db))
      × ((t : Time) × (plus_seconds at n ≡ some t)
          × (latest_status j.job_id db' ≡ some (claimed_row j.job_id (utc_z at) worker (utc_z t))))
unfolding can_work has_unfinished_prior latest_status find
claim_in_order h worker at n wanted db db' j e =
    let (t, sum, found, written) = claim_next-ok h worker at n wanted db db' j e in
    let (there, fits) = first_job-select (can_work (utc_z at) wanted db) db j found in
    let free : has_unfinished_prior db j ≡ false = ground (arith, fits) in
    (
      there,
      ground (arith, fits),
      workable (utc_z at) (latest_status j.job_id db) (ground (arith, fits)),
      ground (arith, fits),
      (λ (prior, r, m, before, last, unfinished).
          ground (arith, any-false _ db.jobs prior free m, before, last, unfinished)),
      (t, sum, rw (← written) (ground (arith, str_eq_iff j.job_id j.job_id))),
    )
