-- ===== src/Stories/Closing.antt =====
-- A closed story stays closed, with the decision that closed it.
use trading_ai_pipeline.Base.{
  ◌≡◌, String, true, false, ◌∷◌, some, str_eq, str_eq_iff, arith, Bool-cases, inl, inr,
}
use trading_ai_pipeline.Base.Table.{find}
use trading_ai_pipeline.Stories.Rows.{StateRow, Db, Hashes}
use trading_ai_pipeline.Stories.Tables.{latest_state, is_closed_row}
use trading_ai_pipeline.Stories.Step.{Setting, Run}
use trading_ai_pipeline.Stories.Frames.{Writes, frame, Run-Frame, IsOpen, closed_last}

KeepsClosed : String → StateRow → Db → Db → Type 0
KeepsClosed story r db db' = latest_state story db ≡ some r → latest_state story db' ≡ some r

state_kept :
    (story : String) (r q : StateRow) (db : Db)
    → is_closed_row r.status ≡ true
    → IsOpen q.story_id db
    → latest_state story db ≡ some r
    → find StateRow.story_id story (q ∷ db.states) ≡ some r
unfolding latest_state find
state_kept story r q db closed open_last e = elim (Bool-cases (str_eq q.story_id story)) [
  | inl hit ↦
      let k = (str_eq_iff q.story_id story).0 hit in
      let o : closed_last (find StateRow.story_id story db.states) ≡ false = rw (← k) open_last in
      absurd (ground (arith, o, e, closed))
  | inr miss ↦ rw miss e
]

KeepsClosed-Writes :
    (h : Hashes) (story : String) (r : StateRow)
    → is_closed_row r.status ≡ true
    → Writes h (KeepsClosed story r)
unfolding KeepsClosed latest_state
KeepsClosed-Writes h story r closed = record {
  rfl = λ db e. e;
  trans = λ a b c f g e. g (f e);
  story = λ q db g e. e;
  job = λ q db g n e. e;
  status = λ q db g e. e;
  capture = λ q db g e. e;
  attempt = λ q db e. e;
  result = λ q db g e. e;
  state = λ q db g o e. state_kept story r q db closed o e;
  orphan = λ q db e. e;
  audit = λ at action s job document db e. e;
  health = λ rows db e. e;
}

-- Once the last state of a story is CLOSED, that row stays the last state of the story through every
-- run: with its decision, its count and its last grade.
pub closure_final :
    (s : Setting) (db db' : Db) (story : String) (r : StateRow)
    → latest_state story db ≡ some r
    → is_closed_row r.status ≡ true
    → Run s db db'
    → latest_state story db' ≡ some r
unfolding KeepsClosed
closure_final s db db' story r e closed run =
    Run-Frame s (frame (KeepsClosed-Writes s.hashes story r closed)) run e
