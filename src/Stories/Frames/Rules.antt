-- ===== src/Stories/Frames/Rules.antt =====
-- Relations between the database before and after a transaction: rules for the parts of a transaction.
use mathlib.Core.Path.{subst}
use trading_ai_pipeline.Base.{
  ◌+◌, ◌≡◌, refl, String, Bool, true, false, List, Option, none, some, if◌then◌else◌, arith,
}
use trading_ai_pipeline.Stories.Rows.{
  Millis, Entry, StoryRow, JobRow, StatusRow, CaptureRow, AttemptRow, ResultRow, StateRow,
  OrphanRow, HealthRow, Db, Hashes, Transaction, Result, ok, err, StoreError, ◌>>=◌, ◌>>◌, pure,
  fail, read, require, require_some,
}
use trading_ai_pipeline.Stories.Tables.{
  insert_story, insert_job, insert_status, insert_capture, insert_attempt, insert_attempt_or_ignore,
  insert_result, insert_state, insert_orphan_or_ignore, latest_state, is_closed_row,
}
use trading_ai_pipeline.Stories.Enqueue.{is_baseline, max_e1_count}
use trading_ai_pipeline.Stories.Audit.{record_audit}

module _ (R : Db → Db → Type 0) where
  abbrev pub RespectsAt : {A : Type 0} → Db → Transaction A → Type 0
  RespectsAt {A} db m = (a : A) (db' : Db) → m db ≡ ok (a, db') → R db db'

  abbrev pub Respects : {A : Type 0} → Transaction A → Type 0
  Respects m = (db : Db) → RespectsAt db m

-- A job is inserted with the next number of its story, the baseline with 0.
abbrev pub Numbered : JobRow → Db → Type 0
Numbered j db =
    j.e1_count ≡ (if is_baseline j.stage then 0 else max_e1_count j.story_id db.jobs + 1)

abbrev pub closed_last : Option StateRow → Bool
closed_last none = false
closed_last (some s) = is_closed_row s.status

-- A state is inserted only where the last state of its story is not CLOSED.
abbrev pub IsOpen : String → Db → Type 0
IsOpen story db = closed_last (latest_state story db) ≡ false

-- A relation that every INSERT of the store respects, where its guards hold.
pub record Frame (h : Hashes) (R : Db → Db → Type 0) : Type 0 where
  pub rfl : (db : Db) → R db db
  pub trans : (db1 db2 db3 : Db) → R db1 db2 → R db2 db3 → R db1 db3
  pub story : (r : StoryRow) → Respects R (insert_story r)
  pub job : (r : JobRow) (db : Db) → Numbered r db → RespectsAt R db (insert_job r)
  pub status : (r : StatusRow) → Respects R (insert_status r)
  pub capture : (r : CaptureRow) → Respects R (insert_capture r)
  pub attempt : (r : AttemptRow) → Respects R (insert_attempt r)
  pub attempt_or_ignore : (r : AttemptRow) → Respects R (insert_attempt_or_ignore r)
  pub result : (r : ResultRow) → Respects R (insert_result r)
  pub state : (r : StateRow) (db : Db) → IsOpen r.story_id db → RespectsAt R db (insert_state r)
  pub orphan : (r : OrphanRow) → Respects R (insert_orphan_or_ignore r)
  pub audit :
      (at : Millis) (action : String) (story job : Option String) (document : List Entry)
      → Respects R (record_audit h at action story job document)
  pub health : (db : Db) (rows : List HealthRow) → R db (record db { health = rows })

module _ {h : Hashes} {R : Db → Db → Type 0} (p : Frame h R) where
  pub pure-Respects : {A : Type 0} (a : A) → Respects R (pure a)
  unfolding pure
  pure-Respects a db b db' e = let k : db ≡ db' = ground arith in subst (R db) k (p.rfl db)

  pub read-Respects : {A : Type 0} (f : Db → A) → Respects R (read f)
  unfolding read
  read-Respects f db b db' e = let k : db ≡ db' = ground arith in subst (R db) k (p.rfl db)

  pub fail-Respects : {A : Type 0} (x : StoreError) → Respects R (fail {A = A} x)
  unfolding fail
  fail-Respects x db b db' e = absurd (ground arith)

  pub require-Respects : (b : Bool) (x : StoreError) → Respects R (require b x)
  unfolding require
  require-Respects true x = pure-Respects tt
  require-Respects false x = fail-Respects x

  pub require_some-Respects :
      {A : Type 0} (o : Option A) (x : StoreError) → Respects R (require_some o x)
  unfolding require_some
  require_some-Respects none x = fail-Respects x
  require_some-Respects (some a) x = pure-Respects a

  pub if-Respects :
      {A : Type 0} (b : Bool) {x y : Transaction A}
      → Respects R x
      → Respects R y
      → Respects R (if b then x else y)
  if-Respects true x y = x
  if-Respects false x y = y

  after_ok :
      {A B : Type 0} (f : A → Transaction B) (db : Db) (r : Result (A × Db))
      → ((a : A) (db1 : Db) → r ≡ ok (a, db1) → R db db1)
      → ((a : A) (db1 : Db) → r ≡ ok (a, db1) → RespectsAt R db1 (f a))
      → (b : B) (db' : Db) → (elim r [ ok (a, db1) ↦ f a db1 | err e ↦ err e ]) ≡ ok (b, db')
      → R db db'
  after_ok f db (ok (a, db1)) first later b db' e =
      p.trans db db1 db' (first a db1 refl) (later a db1 refl b db' e)
  after_ok f db (err x) first later b db' e = absurd (ground arith)

  pub >>=-RespectsAt :
      {A B : Type 0} (m : Transaction A) (f : A → Transaction B) (db : Db)
      → RespectsAt R db m
      → ((a : A) (db1 : Db) → m db ≡ ok (a, db1) → RespectsAt R db1 (f a))
      → RespectsAt R db (m >>= f)
  unfolding ◌>>=◌
  >>=-RespectsAt m f db first later b db' e = after_ok f db (m db) first later b db' e

  pub read-RespectsAt :
      {A B : Type 0} (g : Db → A) (f : A → Transaction B) (db : Db)
      → RespectsAt R db (f (g db))
      → RespectsAt R db (read g >>= f)
  unfolding ◌>>=◌ read
  read-RespectsAt g f db later = later

  pub >>=-Respects :
      {A B : Type 0} {m : Transaction A} {f : A → Transaction B}
      → Respects R m
      → ((a : A) → Respects R (f a))
      → Respects R (m >>= f)
  >>=-Respects first later db = >>=-RespectsAt _ _ db (first db) (λ a db1 e. later a db1)

  pub >>-RespectsAt :
      {B : Type 0} (m : Transaction (Unit {0})) (k : Transaction B) (db : Db)
      → RespectsAt R db m
      → Respects R k
      → RespectsAt R db (m >> k)
  unfolding ◌>>◌
  >>-RespectsAt m k db first later = >>=-RespectsAt _ _ db first (λ a db1 e. later db1)

  pub >>-Respects :
      {B : Type 0} {m : Transaction (Unit {0})} {k : Transaction B}
      → Respects R m
      → Respects R k
      → Respects R (m >> k)
  >>-Respects first later db = >>-RespectsAt _ _ db (first db) later
