-- ===== src/Stories/History.antt =====
-- What a run leaves as it was: every history is append-only, and results are immutable.
use trading_ai_pipeline.Base.{
  ◌≡◌, refl, sym, String, true, List, [], ◌∷◌, ◌++◌, some, str_eq, str_eq_iff, arith, Bool-cases,
  inl, inr,
}
use mathlib.Core.List.{append_assoc}
use trading_ai_pipeline.Base.Table.{find}
use trading_ai_pipeline.Stories.Rows.{ResultRow, Db, Hashes}
use trading_ai_pipeline.Stories.Tables.{result_fits}
use trading_ai_pipeline.Stories.Step.{Setting, Run}
use trading_ai_pipeline.Stories.Frames.{Writes, frame, Run-Frame}

-- The rows that are there now follow the rows that were added.
abbrev pub Extends : {A : Type 0} → List A → List A → Type 0
Extends {A} old new = (added : List A) × (new ≡ added ++ old)

Extends-trans : {A : Type 0} (xs ys zs : List A) → Extends xs ys → Extends ys zs → Extends xs zs
Extends-trans xs ys zs (a, e) (b, f) = (b ++ a, rw (f, e) (sym (append_assoc b a xs)))

-- Every table that has triggers against UPDATE and DELETE.
abbrev pub AppendOnly : Db → Db → Type 0
AppendOnly db db' =
    Extends db.stories db'.stories
    × Extends db.jobs db'.jobs
    × Extends db.statuses db'.statuses
    × Extends db.captures db'.captures
    × Extends db.attempts db'.attempts
    × Extends db.results db'.results
    × Extends db.states db'.states
    × Extends db.orphans db'.orphans
    × Extends db.audit db'.audit

same : {A : Type 0} (xs : List A) → Extends xs xs
same xs = ([], refl)

one : {A : Type 0} (x : A) (xs : List A) → Extends xs (x ∷ xs)
one x xs = (x ∷ [], refl)

AppendOnly-trans : (a b c : Db) → AppendOnly a b → AppendOnly b c → AppendOnly a c
AppendOnly-trans a b c p q = (
  Extends-trans _ _ _ p.0 q.0,
  Extends-trans _ _ _ p.1 q.1,
  Extends-trans _ _ _ p.2 q.2,
  Extends-trans _ _ _ p.3 q.3,
  Extends-trans _ _ _ p.4 q.4,
  Extends-trans _ _ _ p.5 q.5,
  Extends-trans _ _ _ p.6 q.6,
  Extends-trans _ _ _ p.7 q.7,
  Extends-trans _ _ _ p.8 q.8,
)

AppendOnly-Writes : (h : Hashes) → Writes h AppendOnly
AppendOnly-Writes h = record {
  rfl = λ db. (same _, same _, same _, same _, same _, same _, same _, same _, same _);
  trans = AppendOnly-trans;
  story = λ r db g. (one _ _, same _, same _, same _, same _, same _, same _, same _, same _);
  job = λ r db g n. (same _, one _ _, same _, same _, same _, same _, same _, same _, same _);
  status = λ r db g. (same _, same _, one _ _, same _, same _, same _, same _, same _, same _);
  capture = λ r db g. (same _, same _, same _, one _ _, same _, same _, same _, same _, same _);
  attempt = λ r db. (same _, same _, same _, same _, one _ _, same _, same _, same _, same _);
  result = λ r db g. (same _, same _, same _, same _, same _, one _ _, same _, same _, same _);
  state = λ r db g o. (same _, same _, same _, same _, same _, same _, one _ _, same _, same _);
  orphan = λ r db. (same _, same _, same _, same _, same _, same _, same _, one _ _, same _);
  audit = λ at action story job document db.
      (same _, same _, same _, same _, same _, same _, same _, same _, one _ _);
  health = λ rows db. (same _, same _, same _, same _, same _, same _, same _, same _, same _);
}

-- No call takes away, changes or reorders a row of a story, job, status, capture, attempt, result,
-- state, orphan or audit record: at the end of any run each table is its old rows with new ones.
pub Run-AppendOnly : (s : Setting) (db db' : Db) → Run s db db' → AppendOnly db db'
Run-AppendOnly s db db' run = Run-Frame s (frame (AppendOnly-Writes s.hashes)) run

-- What the database holds for an analysis, once it holds a result.
KeepsResult : String → ResultRow → Db → Db → Type 0
KeepsResult id r db db' =
    find ResultRow.analysis_id id db.results ≡ some r
    → find ResultRow.analysis_id id db'.results ≡ some r

result_kept :
    (id : String) (r q : ResultRow) (db : Db)
    → result_fits q db ≡ true
    → find ResultRow.analysis_id id db.results ≡ some r
    → find ResultRow.analysis_id id (q ∷ db.results) ≡ some r
unfolding result_fits find
result_kept id r q db fits e = elim (Bool-cases (str_eq q.analysis_id id)) [
  | inl hit ↦ let k = (str_eq_iff q.analysis_id id).0 hit in absurd (ground (arith, k, e, fits))
  | inr miss ↦ rw miss e
]

KeepsResult-Writes : (h : Hashes) (id : String) (r : ResultRow) → Writes h (KeepsResult id r)
unfolding KeepsResult
KeepsResult-Writes h id r = record {
  rfl = λ db e. e;
  trans = λ a b c f g e. g (f e);
  story = λ q db g e. e;
  job = λ q db g n e. e;
  status = λ q db g e. e;
  capture = λ q db g e. e;
  attempt = λ q db e. e;
  result = λ q db g e. result_kept id r q db g e;
  state = λ q db g o e. e;
  orphan = λ q db e. e;
  audit = λ at action story job document db e. e;
  health = λ rows db e. e;
}

-- The result that an analysis has is the one it keeps, whatever is called later.
pub result_immutable :
    (s : Setting) (db db' : Db) (id : String) (r : ResultRow)
    → find ResultRow.analysis_id id db.results ≡ some r
    → Run s db db'
    → find ResultRow.analysis_id id db'.results ≡ some r
unfolding KeepsResult
result_immutable s db db' id r e run = Run-Frame s (frame (KeepsResult-Writes s.hashes id r)) run e
