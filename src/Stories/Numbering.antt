-- ===== src/Stories/Numbering.antt =====
-- The delta jobs of a story are numbered 1, 2, 3, … in the order in which they are queued.
use trading_ai_pipeline.Base.{
  ℕ, ◌+◌, ◌≡◌, refl, String, false, not, ◌&&◌, List, [], ◌∷◌, length, str_eq, str_eq_iff,
  if◌then◌else◌, arith, Bool-cases, inl, inr,
}
use trading_ai_pipeline.Stories.Rows.{JobRow, Db, Hashes}
use trading_ai_pipeline.Stories.Enqueue.{is_baseline, max_e1_count}
use trading_ai_pipeline.Stories.Step.{Setting, Run}
use trading_ai_pipeline.Stories.Frames.{Writes, frame, Run-Frame, Numbered}

-- The numbers of the delta jobs of a story, the newest first.
unfoldable pub delta_counts : String → List JobRow → List ℕ
delta_counts story [] = []
delta_counts story (j ∷ jobs) =
    let rest = delta_counts story jobs in
    if str_eq j.story_id story && not (is_baseline j.stage) then j.e1_count ∷ rest else rest

-- n, n - 1, …, 1.
abbrev pub CountsDown : List ℕ → Type 0
CountsDown [] = Unit {0}
CountsDown (n ∷ rest) = (n ≡ length rest + 1) × CountsDown rest

max-delta_counts :
    (story : String) (jobs : List JobRow)
    → CountsDown (delta_counts story jobs)
    → max_e1_count story jobs ≡ length (delta_counts story jobs)
unfolding max_e1_count delta_counts
max-delta_counts story [] c = refl
max-delta_counts story (j ∷ jobs) c =
    elim (Bool-cases (str_eq j.story_id story && not (is_baseline j.stage))) [
      | inl here ↦
          let d : CountsDown (j.e1_count ∷ delta_counts story jobs) = rw here at c in
          rw (here, max-delta_counts story jobs d.1) (ground (arith, d.0))
      | inr there ↦
          let d : CountsDown (delta_counts story jobs) = rw there at c in
          rw (there, max-delta_counts story jobs d)
    ]

Counted : String → Db → Db → Type 0
Counted story db db' =
    CountsDown (delta_counts story db.jobs) → CountsDown (delta_counts story db'.jobs)

job_counted :
    (story : String) (j : JobRow) (db : Db)
    → Numbered j db
    → CountsDown (delta_counts story db.jobs)
    → CountsDown (delta_counts story (j ∷ db.jobs))
unfolding delta_counts
job_counted story j db n c =
    elim (Bool-cases (str_eq j.story_id story && not (is_baseline j.stage))) [
      | inl here ↦
          let k : j.story_id ≡ story = ground (arith, here, str_eq_iff j.story_id story) in
          let b : is_baseline j.stage ≡ false = ground (arith, here) in
          let m : j.e1_count ≡ max_e1_count story db.jobs + 1 = rw (b, k) at n in
          rw here (rw (max-delta_counts story db.jobs c) at m, c)
      | inr there ↦ rw there c
    ]

Counted-Writes : (h : Hashes) (story : String) → Writes h (Counted story)
unfolding Counted
Counted-Writes h story = record {
  rfl = λ db c. c;
  trans = λ a b d f g c. g (f c);
  story = λ r db g c. c;
  job = λ r db g n c. job_counted story r db n c;
  status = λ r db g c. c;
  capture = λ r db g c. c;
  attempt = λ r db c. c;
  result = λ r db g c. c;
  state = λ r db g o c. c;
  orphan = λ r db c. c;
  audit = λ at action s job document db c. c;
  health = λ rows db c. c;
}

-- After any run from a database without jobs, the delta jobs of every story have the numbers 1, 2, …, n
-- in the order in which they were queued.
pub deltas_counted :
    (s : Setting) (db db' : Db) (story : String)
    → db.jobs ≡ []
    → Run s db db'
    → CountsDown (delta_counts story db'.jobs)
unfolding Counted delta_counts
deltas_counted s db db' story fresh run =
    Run-Frame s (frame (Counted-Writes s.hashes story)) run (rw fresh tt)
