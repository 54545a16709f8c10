-- ===== src/Stories/Leases.antt =====
-- A capture that is claimed is its owner's until the lease runs out.
use trading_ai_pipeline.Base.{
  ℕ, ◌≡◌, ◌<◌, refl, ap, String, Bool, true, false, ◌∷◌, Option, none, some, str_eq, str_eq_iff,
  arith, Option-cases, Bool-cases, inl, inr,
}
use trading_ai_pipeline.Base.Text.{Text}
use trading_ai_pipeline.Base.Table.{find}
use trading_ai_pipeline.Output.Stamp.{Time}
use trading_ai_pipeline.Stories.Rows.{Millis, utc_z, JobStatus, JobRow, StatusRow, Db, Hashes, ok}
use trading_ai_pipeline.Stories.Tables.{latest_status, first_job}
use trading_ai_pipeline.Stories.Capture.{
  CaptureClaim, claim_capture_job, expire_or_take, expire_capture, take_capture, capture_expired,
  can_capture, awaits_capture, is_claimed, is_pending, like_capture, expired_row, claimed_row,
  capture_owner,
}
use trading_ai_pipeline.Stories.Work.{claim_next, take_job, can_work, awaits_work, not_capture}
use trading_ai_pipeline.Stories.Inversion.{
  >>=-ok, >>-ok, read-ok, pure-ok, require-ok, after-ok, status_then_audit-ok,
}
use trading_ai_pipeline.Stories.Selection.{first_job-select}

-- A claim names the job.
abbrev pub grants : String → Option CaptureClaim → Bool
grants id none = false
grants id (some c) = str_eq c.job.job_id id

-- A status of another job is written, or none.
data Wrote (id : String) (db db' : Db) : Type 0 where
  nothing : db.statuses ≡ db'.statuses → Wrote id db db'
  other :
      (q : StatusRow)
      → str_eq q.job_id id ≡ false
      → q ∷ db.statuses ≡ db'.statuses
      → Wrote id db db'

Wrote-latest :
    (id : String) (db db' : Db) → Wrote id db db' → latest_status id db' ≡ latest_status id db
unfolding latest_status find
Wrote-latest id db db' (nothing e) = rw (← e)
Wrote-latest id db db' (other q differ e) = rw (← e) (ground (arith, differ))

expire_capture-ok :
    (h : Hashes) (worker : Text) (at : Time) (j : JobRow) (db db' : Db) (res : Option CaptureClaim)
    → expire_capture h worker at j db ≡ ok (res, db')
    → (none ≡ res)
      × ((t : Millis) × (expired_row j.job_id (utc_z at) worker t ∷ db.statuses ≡ db'.statuses))
unfolding expire_capture
expire_capture-ok h worker at j db db' res e =
    let (t, db1, first, rest) = >>=-ok _ _ db res db' e in
    let (_, _, _, same) = after-ok at 30 t db db1 first in
    let (result, written) = status_then_audit-ok h _ _ _ _ _ _ none res db1 db' rest in
    (result, (t, rw same (ap Db.statuses written)))

take_capture-ok :
    (h : Hashes) (worker token : Text) (at : Time) (n : ℕ) (j : JobRow) (db db' : Db)
    (res : Option CaptureClaim)
    → take_capture h worker token at n (some j) db ≡ ok (res, db')
    → (some (record { job = j; capture_lease_token = token }) ≡ res)
      × ((t : Millis) × (claimed_row j.job_id (utc_z at) (capture_owner worker token) t
              ∷ db.statuses
            ≡ db'.statuses))
unfolding take_capture
take_capture-ok h worker token at n j db db' res e =
    let (t, db1, first, rest) = >>=-ok _ _ db res db' e in
    let (_, _, _, same) = after-ok at n t db db1 first in
    let (result, written) = status_then_audit-ok h _ _ _ _ _ _ _ res db1 db' rest in
    (result, (t, rw same (ap Db.statuses written)))

nothing_taken :
    (h : Hashes) (worker token : Text) (at : Time) (n : ℕ) (db db' : Db) (res : Option CaptureClaim)
    → take_capture h worker token at n none db ≡ ok (res, db')
    → (none ≡ res) × (db ≡ db')
unfolding take_capture
nothing_taken h worker token at n db db' res e = pure-ok none res db db' e

of_capture : (w : Option Text) → like_capture w ≡ true → not_capture w ≡ true → ⊥
of_capture none c n = ground arith
of_capture (some w) c n = ground (arith, c, n)

claimed_or_pending : (s : JobStatus) → is_claimed s ≡ true → is_pending s ≡ true → ⊥
claimed_or_pending JobStatus.claimed c p = ground arith
claimed_or_pending JobStatus.pending_capture c p = ground arith
claimed_or_pending JobStatus.captured c p = ground arith
claimed_or_pending JobStatus.completed c p = ground arith
claimed_or_pending JobStatus.technical_failure c p = ground arith

-- A job that one of the two searches finds is not `id`.
module _ (id : String) (r : StatusRow) (lease : Millis) (at : Time) (db : Db)
    (last : latest_status id db ≡ some r) (held : is_claimed r.status ≡ true)
    (until : r.lease_expires_at ≡ some lease) (early : utc_z at < lease) where
  not_expired :
      (j : JobRow)
      → capture_expired (utc_z at) (latest_status j.job_id db) ≡ true
      → str_eq j.job_id id ≡ false
  unfolding capture_expired
  not_expired j e = elim (Bool-cases (str_eq j.job_id id)) [
    | inr differ ↦ differ
    | inl hit ↦
        let k = (str_eq_iff j.job_id id).0 hit in
        let row : latest_status j.job_id db ≡ some r = rw k last in
        absurd (ground (arith, e, row, until, early))
  ]

  not_pending : (j : JobRow) → can_capture (utc_z at) db j ≡ true → str_eq j.job_id id ≡ false
  unfolding can_capture awaits_capture
  not_pending j e = elim (Bool-cases (str_eq j.job_id id)) [
    | inr differ ↦ differ
    | inl hit ↦
        let k = (str_eq_iff j.job_id id).0 hit in
        let row : latest_status j.job_id db ≡ some r = rw k last in
        absurd (claimed_or_pending r.status held (ground (arith, e, row)))
  ]

  expire_or_take-other :
      (h : Hashes) (worker token : Text) (n : ℕ) (db' : Db) (res : Option CaptureClaim)
      (expired : Option JobRow)
      → first_job (λ j. capture_expired (utc_z at) (latest_status j.job_id db)) db ≡ expired
      → expire_or_take h worker token at n expired db ≡ ok (res, db')
      → Wrote id db db' × (grants id res ≡ false)
  unfolding expire_or_take
  expire_or_take-other h worker token n db' res (some j) found e =
      let (none_res, (t, written)) = expire_capture-ok h worker at j db db' res e in
      (
        other (expired_row j.job_id (utc_z at) worker t)
            (not_expired j (first_job-select _ db j found).1) written,
        rw (← none_res),
      )
  expire_or_take-other h worker token n db' res none found e =
      elim (Option-cases (first_job (can_capture (utc_z at) db) db)) [
        | inl empty ↦
            let taken : take_capture h worker token at n none db ≡ ok (res, db') =
              rw (← empty) (read-ok _ _ db res db' e) in
            let (none_res, same) = nothing_taken h worker token at n db db' res taken in
            (nothing (ap Db.statuses same), rw (← none_res))
        | inr (j, some_j) ↦
            let taken : take_capture h worker token at n (some j) db ≡ ok (res, db') =
              rw (← some_j) (read-ok _ _ db res db' e) in
            let (result, (t, written)) = take_capture-ok h worker token at n j db db' res taken in
            let differ =
              not_pending j (first_job-select (can_capture (utc_z at) db) db j some_j).1 in
            (
              other (claimed_row j.job_id (utc_z at) (capture_owner worker token) t) differ written,
              rw (← result) differ,
            )
      ]

module _ (id : String) (r : StatusRow) (db : Db) (last : latest_status id db ≡ some r)
    (held : is_claimed r.status ≡ true) (capture : like_capture r.worker_id ≡ true) where
  not_workable :
      (at : Millis) (wanted : Option String) (j : JobRow)
      → can_work at wanted db j ≡ true
      → str_eq j.job_id id ≡ false
  unfolding can_work awaits_work
  not_workable at wanted j e = elim (Bool-cases (str_eq j.job_id id)) [
    | inr differ ↦ differ
    | inl hit ↦
        let k = (str_eq_iff j.job_id id).0 hit in
        let row : latest_status j.job_id db ≡ some r = rw k last in
        absurd (of_capture r.worker_id capture (ground (arith, e, row, held)))
  ]

  take_job-other :
      (h : Hashes) (worker : Text) (at : Time) (expiry : Millis) (wanted : Option String) (db2 : Db)
      (res : Option JobRow) (found : Option JobRow)
      → first_job (can_work (utc_z at) wanted db) db ≡ found
      → take_job h worker (utc_z at) expiry found db ≡ ok (res, db2)
      → Wrote id db db2
  unfolding take_job
  take_job-other h worker at expiry wanted db2 res none found e =
      nothing (ap Db.statuses (pure-ok none res db db2 e).1)
  take_job-other h worker at expiry wanted db2 res (some j) found e =
      let (_, written) = status_then_audit-ok h _ _ _ _ _ _ (some j) res db db2 e in
      other (claimed_row j.job_id (utc_z at) worker expiry)
        (not_workable (utc_z at) wanted j (first_job-select _ db j found).1)
        (ap Db.statuses written)

  claim_next-other :
      (h : Hashes) (worker : Text) (at : Time) (n : ℕ) (wanted : Option String) (db2 : Db)
      (res : Option JobRow)
      → claim_next h worker at n wanted db ≡ ok (res, db2)
      → Wrote id db db2
  unfolding claim_next
  claim_next-other h worker at n wanted db2 res e =
      let (expiry, db1, first, rest) = >>=-ok _ _ db res db2 e in
      let (_, _, _, same) = after-ok at n expiry db db1 first in
      let found = rw (← same) at (read-ok _ _ db1 res db2 rest) in
      take_job-other h worker at expiry wanted db2 res _ refl found

-- While the lease of a claimed capture runs, claim_capture_job neither grants that job nor returns it to
-- the queue, and claim_next does neither at any time: its claim stays its latest status.
pub lease_excludes :
    (h : Hashes) (id : String) (r : StatusRow) (lease : Millis) (at at' : Time) (db db' db2 : Db)
    (worker token worker' : Text) (n n' : ℕ) (wanted : Option String) (res : Option CaptureClaim)
    (res' : Option JobRow)
    → latest_status id db ≡ some r
    → is_claimed r.status ≡ true
    → like_capture r.worker_id ≡ true
    → r.lease_expires_at ≡ some lease
    → utc_z at < lease
    → claim_capture_job h worker token at n db ≡ ok (res, db')
    → claim_next h worker' at' n' wanted db ≡ ok (res', db2)
    → (grants id res ≡ false) × (latest_status id db' ≡ some r) × (latest_status id db2 ≡ some r)
unfolding claim_capture_job
lease_excludes h id r lease at at' db db' db2 worker token worker' n n' wanted res res' last held
      capture until early e e' =
    let (db1, first, rest) = >>-ok _ _ db res db' e in
    let same = (require-ok _ _ db db1 tt first).1 in
    let found = rw (← same) at (read-ok _ _ db1 res db' rest) in
    let (kept, free) =
      expire_or_take-other id r lease at db last held until early h worker token n db' res _ refl
        found in
    let kept' = claim_next-other id r db last held capture h worker' at' n' wanted db2 res' e' in
    (free, rw (Wrote-latest id db db' kept) last, rw (Wrote-latest id db db2 kept') last)
