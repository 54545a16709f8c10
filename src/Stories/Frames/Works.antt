-- ===== src/Stories/Frames/Works.antt =====
-- The transactions on captured jobs and on stories respect what the inserts respect.
use mathlib.Core.Path.{subst}
use trading_ai_pipeline.Base.{
  ℕ, ◌≡◌, refl, String, Bool, true, false, List, Option, none, some, str_eq, arith, Bool-cases, inl,
  inr, any, [], ◌∷◌, ◌&&◌,
}
use trading_ai_pipeline.Base.Text.{Text}
use trading_ai_pipeline.Output.Stamp.{Time}
use trading_ai_pipeline.Stories.Rows.{Millis, JobRow, AttemptRow, StateRow, Decision, Db, Hashes}
use trading_ai_pipeline.Stories.Tables.{is_closed_row, is_closed, latest_state}
use trading_ai_pipeline.Base.Table.{find}
use trading_ai_pipeline.Stories.Work.{
  Bundle, take_job, claim_next, start_attempt, begin_provider_attempt, fail_attempt,
  technical_failure,
}
use trading_ai_pipeline.Stories.Complete.{
  Grade, GradeLibrary, Response, check_grade, materialise, store_grade, store_once, complete,
  write_closure, close_once, close_story, heartbeat, upsert_health, health_row,
}
use trading_ai_pipeline.Stories.Frames.Captures.{after-Respects}
use trading_ai_pipeline.Stories.Frames.Rules.{
  Frame, Respects, pure-Respects, read-Respects, require-Respects, require_some-Respects,
  >>=-Respects, >>-Respects, IsOpen, closed_last, RespectsAt, read-RespectsAt, >>-RespectsAt,
}

last_open :
    (story : String) (rows : List StateRow)
    → any (λ s. str_eq s.story_id story && is_closed_row s.status) rows ≡ false
    → closed_last (find StateRow.story_id story rows) ≡ false
unfolding find
last_open story [] e = refl
last_open story (r ∷ rows) e = ground (arith, last_open story rows)

-- A story without a CLOSED state has no CLOSED state as its last.
not_closed-IsOpen : (story : String) (db : Db) → is_closed story db ≡ false → IsOpen story db
unfolding is_closed latest_state
not_closed-IsOpen story db e = last_open story db.states e

module _ {h : Hashes} {R : Db → Db → Type 0} (p : Frame h R) where
  take_job-Respects :
      (worker : Text) (at expiry : Millis) (j : Option JobRow)
      → Respects R (take_job h worker at expiry j)
  unfolding take_job
  take_job-Respects worker at expiry none = pure-Respects p _
  take_job-Respects worker at expiry (some j) =
      >>-Respects p (p.status _) (>>-Respects p (p.audit _ _ _ _ _) (pure-Respects p _))

  pub claim_next-Respects :
      (worker : Text) (at : Time) (n : ℕ) (wanted : Option String)
      → Respects R (claim_next h worker at n wanted)
  unfolding claim_next
  claim_next-Respects worker at n wanted =
      >>=-Respects p (after-Respects p at n)
        (λ expiry. >>=-Respects p (read-Respects p _) (λ j. take_job-Respects worker _ expiry j))

  start_attempt-Respects :
      (j : JobRow) (model manifest client : String) (at : Millis) (a : Option AttemptRow)
      → Respects R (start_attempt h j model manifest client at a)
  unfolding start_attempt
  start_attempt-Respects j model manifest client at (some a) =
      >>-Respects p (require-Respects p _ _) (pure-Respects p _)
  start_attempt-Respects j model manifest client at none =
      >>-Respects p (p.attempt _) (>>-Respects p (p.audit _ _ _ _ _) (pure-Respects p _))

  pub begin_attempt-Respects :
      (j : JobRow) (model manifest client : String) (at : Time)
      → Respects R (begin_provider_attempt h j model manifest client at)
  unfolding begin_provider_attempt
  begin_attempt-Respects j model manifest client at =
      >>=-Respects p (read-Respects p _) (λ a. start_attempt-Respects j model manifest client _ a)

  fail_attempt-Respects :
      (a : Option AttemptRow) (code : String) (at : Millis) (model : Option String)
      → Respects R (fail_attempt h a code at model)
  unfolding fail_attempt
  fail_attempt-Respects none code at model = pure-Respects p _
  fail_attempt-Respects (some a) code at model = p.attempt_or_ignore _

  pub technical_failure-Respects :
      (j : JobRow) (code : String) (detail : Text) (at : Time) (model : Option String)
      → Respects R (technical_failure h j code detail at model)
  unfolding technical_failure
  technical_failure-Respects j code detail at model = >>-Respects p (p.status _) (
      >>=-Respects p (read-Respects p _)
        (λ a. >>-Respects p (fail_attempt-Respects a code _ model) (p.audit _ _ _ _ _)))

  check_grade-Respects :
      (l : GradeLibrary) (j : JobRow) (g : Grade) → Respects R (check_grade l j g)
  unfolding check_grade
  check_grade-Respects l j g = >>-Respects p (require-Respects p _ _) (
      >>-Respects p (require-Respects p _ _)
        (>>-Respects p (require-Respects p _ _) (require-Respects p _ _)))

  materialise-Respects :
      (l : GradeLibrary) (j : JobRow) (g : Grade) (s : Option StateRow) (at : Millis) (b : Bool)
      (db : Db)
      → is_closed j.story_id db ≡ b
      → RespectsAt R db (materialise l j g s at b)
  unfolding materialise
  materialise-Respects l j g s at true db e = pure-Respects p _ db
  materialise-Respects l j g s at false db e = p.state _ db (not_closed-IsOpen j.story_id db e)

  store_grade-Respects :
      (l : GradeLibrary) (b : Bundle) (g : Grade) (r : Response) (at : Millis)
      → Respects R (store_grade h l b g r at)
  unfolding store_grade
  store_grade-Respects l b g r at = >>=-Respects p (read-Respects p _) (λ last.
      >>=-Respects p (require_some-Respects p last _) (λ a. >>-Respects p (p.attempt _) (
        >>-Respects p (p.result _) (
          >>=-Respects p (read-Respects p _) (λ previous.
            >>-Respects p (require-Respects p _ _) (λ db. read-RespectsAt p _ _ db (
              >>-RespectsAt p _ _ db (materialise-Respects l b.job g previous at _ db refl)
                (>>-Respects p (p.status _) (p.audit _ _ _ _ _)))))))))

  store_once-Respects :
      (l : GradeLibrary) (b : Bundle) (g : Grade) (r : Response) (at : Millis) (stored : Bool)
      → Respects R (store_once h l b g r at stored)
  unfolding store_once
  store_once-Respects l b g r at true = pure-Respects p _
  store_once-Respects l b g r at false = store_grade-Respects l b g r at

  pub complete-Respects :
      (l : GradeLibrary) (b : Bundle) (g : Grade) (r : Response) (at : Time)
      → Respects R (complete h l b g r at)
  unfolding complete
  complete-Respects l b g r at =
      >>-Respects p (check_grade-Respects l b.job g)
        (>>=-Respects p (read-Respects p _) (λ stored. store_once-Respects l b g r _ stored))

  write_closure-Respects :
      (l : GradeLibrary) (story : String) (d : Decision) (at : Millis) (s : Option StateRow)
      (db : Db)
      → IsOpen story db
      → RespectsAt R db (write_closure h l story d at s)
  unfolding write_closure
  write_closure-Respects l story d at none db o =
      >>-RespectsAt p _ _ db (p.state _ db o) (p.audit _ _ _ _ _)
  write_closure-Respects l story d at (some s) db o =
      >>-RespectsAt p _ _ db (p.state _ db o) (p.audit _ _ _ _ _)

  close_once-Respects :
      (l : GradeLibrary) (story : String) (d : Decision) (at : Millis) (s : Option StateRow)
      (db : Db)
      → latest_state story db ≡ s
      → RespectsAt R db (close_once h l story d at s)
  unfolding close_once
  close_once-Respects l story d at none db e = write_closure-Respects l story d at none db (rw e)
  close_once-Respects l story d at (some s) db e = elim (Bool-cases (is_closed_row s.status)) [
    | inl c ↦ rw c (require-Respects p _ _ db)
    | inr o ↦ rw o (write_closure-Respects l story d at (some s) db (rw (e, o)))
  ]

  pub close_story-Respects :
      (l : GradeLibrary) (story decision : String) (at : Time) (actor : String)
      → Respects R (close_story h l story decision at actor)
  unfolding close_story
  close_story-Respects l story decision at actor =
      >>=-Respects p (require_some-Respects p _ _) (λ d. >>-Respects p (require-Respects p _ _) (
        >>=-Respects p (read-Respects p _) (λ row.
          >>-Respects p (require-Respects p _ _)
            (λ db. read-RespectsAt p _ _ db (close_once-Respects l story d _ _ db refl)))))

  pub heartbeat-Respects :
      (worker : Text) (enabled : Bool) (at : Time) (error : Option String)
      → Respects R (heartbeat worker enabled at error)
  unfolding heartbeat
  heartbeat-Respects worker enabled at error db a db' e =
      let k : record db { health = upsert_health (health_row worker enabled at error) db.health }
          ≡ db' =
        ground arith in
      subst (R db) k (p.health db _)
