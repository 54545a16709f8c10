-- ===== src/Stories/Frames/Written.antt =====
-- A relation is given by what it says of each row that is written, under the guard of the write.
use mathlib.Core.Path.{subst}
use trading_ai_pipeline.Base.{
  ◌≡◌, refl, String, Bool, true, false, List, Option, if◌then◌else◌, arith,
}
use trading_ai_pipeline.Stories.Rows.{
  Millis, Entry, StoryRow, JobRow, StatusRow, CaptureRow, AttemptRow, ResultRow, StateRow,
  OrphanRow, HealthRow, Db, Hashes, Transaction, ok,
}
use trading_ai_pipeline.Stories.Tables.{
  insert_if, insert_story, insert_job, insert_status, insert_capture, insert_attempt,
  insert_attempt_or_ignore, insert_result, insert_state, insert_orphan_or_ignore, with_story,
  with_job, with_status, with_capture, with_attempt, with_result, with_state, with_orphan,
  story_fits, job_fits, has_job, capture_fits, result_fits, state_fits,
}
use trading_ai_pipeline.Stories.Audit.{audit_row, record_audit, with_audit}
use trading_ai_pipeline.Stories.Frames.Rules.{Frame, Numbered, IsOpen, RespectsAt}

pub record Writes (h : Hashes) (R : Db → Db → Type 0) : Type 0 where
  pub rfl : (db : Db) → R db db
  pub trans : (db1 db2 db3 : Db) → R db1 db2 → R db2 db3 → R db1 db3
  pub story : (r : StoryRow) (db : Db) → story_fits r db ≡ true → R db (with_story r db)
  pub job : (r : JobRow) (db : Db) → job_fits r db ≡ true → Numbered r db → R db (with_job r db)
  pub status : (r : StatusRow) (db : Db) → has_job r.job_id db ≡ true → R db (with_status r db)
  pub capture : (r : CaptureRow) (db : Db) → capture_fits r db ≡ true → R db (with_capture r db)
  pub attempt : (r : AttemptRow) (db : Db) → R db (with_attempt r db)
  pub result : (r : ResultRow) (db : Db) → result_fits r db ≡ true → R db (with_result r db)
  pub state :
      (r : StateRow) (db : Db)
      → state_fits r db ≡ true
      → IsOpen r.story_id db
      → R db (with_state r db)
  pub orphan : (r : OrphanRow) (db : Db) → R db (with_orphan r db)
  pub audit :
      (at : Millis) (action : String) (story job : Option String) (document : List Entry) (db : Db)
      → R db (with_audit (audit_row h at action story job document db.audit) db)
  pub health : (rows : List HealthRow) (db : Db) → R db (record db { health = rows })

-- An insert that succeeds has written its row, and its guard held.
inserted :
    (R : Db → Db → Type 0) (fits : Bool) (f : Db → Db) (db : Db)
    → (fits ≡ true → R db (f db))
    → RespectsAt R db (insert_if fits f)
unfolding insert_if
inserted R true f db r a db' e = let k : f db ≡ db' = ground arith in subst (R db) k (r refl)
inserted R false f db r a db' e = absurd (ground arith)

-- An insert that may be passed over.
chosen :
    (R : Db → Db → Type 0) (c : Bool) (x y : Transaction (Unit {0})) (db : Db)
    → RespectsAt R db x
    → RespectsAt R db y
    → (a : Unit {0}) (db' : Db) → (if c then x db else y db) ≡ ok (a, db')
    → R db db'
chosen R true x y db p q = p
chosen R false x y db p q = q

module _ {h : Hashes} {R : Db → Db → Type 0} (w : Writes h R) where
  pass : (db : Db) → RespectsAt R db (λ d. ok (tt, d))
  pass db a db' e = let k : db ≡ db' = ground arith in subst (R db) k (w.rfl db)

  pub frame : Frame h R
  unfolding insert_story insert_job insert_status insert_capture insert_attempt
      insert_attempt_or_ignore insert_result insert_state insert_orphan_or_ignore record_audit
  frame = record {
    rfl = w.rfl;
    trans = w.trans;
    story = λ r db. inserted R _ _ db (w.story r db);
    job = λ r db n. inserted R _ _ db (λ g. w.job r db g n);
    status = λ r db. inserted R _ _ db (w.status r db);
    capture = λ r db. inserted R _ _ db (w.capture r db);
    attempt = λ r db. inserted R _ _ db (λ g. w.attempt r db);
    attempt_or_ignore = λ r db.
        chosen R _ (insert_if _ (with_attempt r)) (λ d. ok (tt, d)) db
          (inserted R _ _ db (λ g. w.attempt r db)) (pass db);
    result = λ r db. inserted R _ _ db (w.result r db);
    state = λ r db o. inserted R _ _ db (λ g. w.state r db g o);
    orphan = λ r db.
        chosen R _ (λ d. ok (tt, d)) (insert_if _ (with_orphan r)) db (pass db)
          (inserted R _ _ db (λ g. w.orphan r db));
    audit = λ at action story job document db.
        inserted R _ _ db (λ g. w.audit at action story job document db);
    health = λ db rows. w.health rows db;
  }
