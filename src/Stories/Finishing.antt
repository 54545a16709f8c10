-- ===== src/Stories/Finishing.antt =====
-- complete is idempotent, and a technical failure does not undo it but hides it.
use mathlib.Core.Path.{subst}
use trading_ai_pipeline.Base.{
  ℕ, ◌≡◌, refl, ap, ◌∙◌, String, Bool, true, false, is_some, ◌∷◌, Memᴰ, Option, none, some,
  str_eq_iff, arith, any-false,
}
use trading_ai_pipeline.Base.Text.{Text}
use trading_ai_pipeline.Base.Table.{find}
use trading_ai_pipeline.Output.Stamp.{Time}
use trading_ai_pipeline.Stories.Rows.{
  Millis, utc_z, JobRow, StateRow, AttemptRow, ResultRow, Db, Hashes, StoreError, ok, ◌>>=◌, ◌>>◌,
  pure, fail, read, require,
}
use trading_ai_pipeline.Stories.Tables.{
  latest_status, insert_if, insert_result, with_result, insert_state, with_state,
  insert_attempt_or_ignore,
}
use trading_ai_pipeline.Stories.Work.{
  Bundle, technical_failure, fail_attempt, failure_row, claim_next, can_work, is_prior,
  has_unfinished_prior,
}
use trading_ai_pipeline.Stories.Complete.{
  Grade, GradeLibrary, Response, check_grade, complete, store_once, store_grade, materialise,
  result_row,
}
use trading_ai_pipeline.Stories.Capture.{bounded}
use trading_ai_pipeline.Stories.Inversion.{
  >>=-ok, >>-ok, read-ok, pure-ok, require-ok, insert_if-ok, insert_status-ok, record_audit-ok,
}
use trading_ai_pipeline.Stories.Claims.{claim_next-ok}
use trading_ai_pipeline.Stories.Selection.{first_job-select}

require-again :
    (b : Bool) (x : StoreError) (db db1 db2 : Db) (u : Unit {0})
    → require b x db ≡ ok (u, db1)
    → require b x db2 ≡ ok (tt, db2)
unfolding require pure fail
require-again true x db db1 db2 u e = refl
require-again false x db db1 db2 u e = absurd (ground arith)

-- The guards on a grade read nothing of the database.
check_grade-again :
    (lib : GradeLibrary) (j : JobRow) (g : Grade) (db db1 db2 : Db) (u : Unit {0})
    → check_grade lib j g db ≡ ok (u, db1)
    → (check_grade lib j g db2 ≡ ok (tt, db2)) × (db ≡ db1)
unfolding check_grade ◌>>=◌ ◌>>◌ require pure fail
check_grade-again lib j g db db1 db2 u e = (ground (arith, e), ground (arith, e))

materialise-results :
    (lib : GradeLibrary) (j : JobRow) (g : Grade) (s : Option StateRow) (at : Millis) (b : Bool)
    (db db1 : Db) (u : Unit {0})
    → materialise lib j g s at b db ≡ ok (u, db1)
    → db.results ≡ db1.results
unfolding materialise insert_state
materialise-results lib j g s at true db db1 u e = ap Db.results (pure-ok tt u db db1 e).1
materialise-results lib j g s at false db db1 u e =
    ap Db.results (insert_if-ok _ (with_state _) db db1 u e).1

-- A grade that is stored is the result of its analysis from then on.
store_grade-result :
    (h : Hashes) (lib : GradeLibrary) (b : Bundle) (g : Grade) (r : Response) (at : Millis)
    (db db' : Db) (u : Unit {0})
    → store_grade h lib b g r at db ≡ ok (u, db')
    → find ResultRow.analysis_id b.job.analysis_id db'.results ≡ some (result_row b g r at)
unfolding store_grade insert_result find
store_grade-result h lib b g r at db db' u e =
    let (a, db1, e1, r1) = >>=-ok _ _ db u db' (read-ok _ _ db u db' e) in
    let (db2, e2, r2) = >>-ok _ _ db1 u db' r1 in
    let (db3, e3, r3) = >>-ok _ _ db2 u db' r2 in
    let k3 = (insert_if-ok _ (with_result (result_row b g r at)) db2 db3 tt e3).1 in
    let (db4, e4, r4) = >>-ok _ _ db3 u db' (read-ok _ _ db3 u db' r3) in
    let k4 = (require-ok _ _ db3 db4 tt e4).1 in
    let (db5, e5, r5) = >>-ok _ _ db4 u db' (read-ok _ _ db4 u db' r4) in
    let k5 = materialise-results lib b.job g _ at _ db4 db5 tt e5 in
    let (db6, e6, r6) = >>-ok _ _ db5 u db' r5 in
    let k6 = insert_status-ok _ db5 db6 tt e6 in
    let k7 = record_audit-ok h at _ _ _ _ db6 db' u r6 in
    let results : result_row b g r at ∷ db2.results ≡ db'.results =
      ap Db.results k3 ∙ ap Db.results k4 ∙ k5 ∙ ap Db.results k6 ∙ ap Db.results k7 in
    rw (← results) (ground (arith, str_eq_iff b.job.analysis_id b.job.analysis_id))

stored_after :
    (h : Hashes) (lib : GradeLibrary) (b : Bundle) (g : Grade) (r : Response) (at : Millis)
    (stored : Bool) (db db' : Db) (u : Unit {0})
    → is_some (find ResultRow.analysis_id b.job.analysis_id db.results) ≡ stored
    → store_once h lib b g r at stored db ≡ ok (u, db')
    → is_some (find ResultRow.analysis_id b.job.analysis_id db'.results) ≡ true
unfolding store_once
stored_after h lib b g r at true db db' u s e = let k = (pure-ok tt u db db' e).1 in rw (← k) s
stored_after h lib b g r at false db db' u s e = rw (store_grade-result h lib b g r at db db' u e)

-- To complete an analysis again changes nothing, whatever the provider answers and whenever.
pub complete_again :
    (h : Hashes) (lib : GradeLibrary) (b : Bundle) (g : Grade) (r r' : Response) (at at' : Time)
    (db db' : Db) (u : Unit {0})
    → complete h lib b g r at db ≡ ok (u, db')
    → complete h lib b g r' at' db' ≡ ok (tt, db')
unfolding complete store_once check_grade
complete_again h lib b g r r' at at' db db' u e =
    let (db1, e1, r1) = >>-ok _ _ db u db' e in
    let (again, same) = check_grade-again lib b.job g db db1 db' tt e1 in
    let stored = stored_after h lib b g r (utc_z at) _ db1 db' u refl (read-ok _ _ db1 u db' r1) in
    unfold ◌>>◌ ◌>>=◌ read pure in rw again (rw stored)

fail_attempt-rest :
    (h : Hashes) (a : Option AttemptRow) (code : String) (at : Millis) (model : Option String)
    (db db' : Db) (u : Unit {0})
    → fail_attempt h a code at model db ≡ ok (u, db')
    → (db.statuses ≡ db'.statuses) × (db.jobs ≡ db'.jobs) × (db.results ≡ db'.results)
unfolding fail_attempt insert_attempt_or_ignore insert_if
fail_attempt-rest h none code at model db db' u e =
    let k = (pure-ok tt u db db' e).1 in (ap Db.statuses k, ap Db.jobs k, ap Db.results k)
fail_attempt-rest h (some a) code at model db db' u e = (ground arith, ground arith, ground arith)

technical_failure-ok :
    (h : Hashes) (j : JobRow) (code : String) (detail : Text) (at : Time) (model : Option String)
    (db db' : Db) (u : Unit {0})
    → technical_failure h j code detail at model db ≡ ok (u, db')
    → (failure_row j.job_id (utc_z at) code (bounded 240 detail) ∷ db.statuses ≡ db'.statuses)
      × (db.jobs ≡ db'.jobs)
      × (db.results ≡ db'.results)
unfolding technical_failure
technical_failure-ok h j code detail at model db db' u e =
    let (db1, e1, r1) = >>-ok _ _ db u db' e in
    let k1 = insert_status-ok _ db db1 tt e1 in
    let (db2, e2, r2) = >>-ok _ _ db1 u db' (read-ok _ _ db1 u db' r1) in
    let k2 = fail_attempt-rest h _ code (utc_z at) model db1 db2 tt e2 in
    let k3 = record_audit-ok h (utc_z at) _ _ _ _ db2 db' u r2 in
    (
      ap Db.statuses k1 ∙ k2.0 ∙ ap Db.statuses k3,
      ap Db.jobs k1 ∙ k2.1 ∙ ap Db.jobs k3,
      ap Db.results k1 ∙ k2.2 ∙ ap Db.results k3,
    )

-- A technical failure that is reported becomes the latest status of its job, also where the job has
-- been completed meanwhile. Its result is kept, and still the next job that claim_next takes is none
-- that comes after it in its story.
pub failure_blocks_story :
    (h : Hashes) (j k : JobRow) (code : String) (detail : Text) (at at' : Time)
    (model : Option String) (worker : Text) (n : ℕ) (wanted : Option String) (db db' db2 : Db)
    (u : Unit {0})
    → technical_failure h j code detail at model db ≡ ok (u, db')
    → Memᴰ j db.jobs
    → claim_next h worker at' n wanted db' ≡ ok (some k, db2)
    → (is_prior k j ≡ false)
      × (latest_status j.job_id db'
          ≡ some (failure_row j.job_id (utc_z at) code (bounded 240 detail)))
      × (find ResultRow.analysis_id j.analysis_id db'.results
          ≡ find ResultRow.analysis_id j.analysis_id db.results)
unfolding can_work has_unfinished_prior latest_status find
failure_blocks_story h j k code detail at at' model worker n wanted db db' db2 u e m e' =
    let (statuses, jobs, results) = technical_failure-ok h j code detail at model db db' u e in
    let (t, _, found, _) = claim_next-ok h worker at' n wanted db' db2 k e' in
    let fits = (first_job-select (can_work (utc_z at') wanted db') db' k found).1 in
    let free : has_unfinished_prior db' k ≡ false = ground (arith, fits) in
    let last : latest_status j.job_id db'
        ≡ some (failure_row j.job_id (utc_z at) code (bounded 240 detail)) =
      rw (← statuses) (ground (arith, str_eq_iff j.job_id j.job_id)) in
    let done = any-false _ db'.jobs j free (subst (Memᴰ j) jobs m) in
    (ground (arith, done, last), last, rw (← results))
