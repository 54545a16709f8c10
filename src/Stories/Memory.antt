-- ===== src/Stories/Memory.antt =====
-- What the store remembers of a story: _active_story, _latest_result and _bounded_story_context.
use trading_ai_pipeline.Base.{
  ℕ, suc, zero, String, Bool, true, false, not, ◌==◌, ltb, List, [], ◌∷◌, Option, none, some,
  select, reverse, str_eq, if◌then◌else◌,
}
use trading_ai_pipeline.Base.Table.{find}
use trading_ai_pipeline.Base.Text.{Text, codes, text_eq}
use trading_ai_pipeline.Output.Stamp.{text_lt}
use trading_ai_pipeline.Stories.Rows.{
  ProducerEvent, StoryRow, JobRow, ResultRow, Summary, StoryMemory, Db,
}
use trading_ai_pipeline.Base.Search.{first_by}
use trading_ai_pipeline.Stories.Tables.{is_closed, latest_state}

-- e.source_bar_time of the story's event, where there is one.
abbrev pub touch_time : Db → StoryRow → Option Text
touch_time db s =
    elim (find ProducerEvent.canonical_event_id s.liquidity_event_id db.producer_events) [
      | none ↦ none
      | some e ↦ some e.source_bar_time
    ]

-- The JOIN, with `AND e.source_bar_time < ?` where a time is given.
unfoldable pub touched_before : Option Text → Db → StoryRow → Bool
touched_before limit db s = elim (touch_time db s) [
  | none ↦ false
  | some t ↦ elim limit [ none ↦ true | some u ↦ text_lt t u ]
]

abbrev time_or_empty : Option Text → Text
time_or_empty none = []
time_or_empty (some t) = t

-- ORDER BY e.source_bar_time DESC, s.created_at DESC, s.story_id DESC
unfoldable pub story_after : Db → StoryRow → StoryRow → Bool
story_after db r s =
    let t = time_or_empty (touch_time db r) in
    let u = time_or_empty (touch_time db s) in
    if not (text_eq t u)
    then text_lt u t
    else if not (r.created_at == s.created_at)
    then ltb s.created_at r.created_at
    else text_lt (codes s.story_id) (codes r.story_id)

unfoldable pub latest_story : Option Text → Db → Option StoryRow
latest_story limit db = first_by (story_after db) (select (touched_before limit db) db.stories)

unfoldable pub active_story : Option Text → Db → Option StoryRow
active_story limit db = elim (latest_story limit db) [
  | none ↦ none
  | some s ↦ if is_closed s.story_id db then none else some s
]

-- A result with the job of its analysis.
pub record Analysed : Type 0 where
  pub result : ResultRow
  pub job : JobRow

unfoldable pub join_jobs : List JobRow → List ResultRow → List Analysed
join_jobs jobs [] = []
join_jobs jobs (r ∷ rs) = elim (find JobRow.analysis_id r.analysis_id jobs) [
  | none ↦ join_jobs jobs rs
  | some j ↦ record { result = r; job = j } ∷ join_jobs jobs rs
]

unfoldable pub story_results : String → Db → List Analysed
story_results id db = join_jobs db.jobs (select (λ r. str_eq r.story_id id) db.results)

-- ORDER BY j.e1_count DESC, r.completed_at DESC
unfoldable pub newer : Analysed → Analysed → Bool
newer a b =
    if a.job.e1_count == b.job.e1_count
    then ltb b.result.completed_at a.result.completed_at
    else ltb b.job.e1_count a.job.e1_count

unfoldable pub latest_result : String → Db → Option Analysed
latest_result id db = first_by newer (story_results id db)

unfoldable pub insert_newer : Analysed → List Analysed → List Analysed
insert_newer a [] = a ∷ []
insert_newer a (b ∷ bs) =
    let rest = insert_newer a bs in if newer b a then b ∷ rest else a ∷ (b ∷ bs)

unfoldable pub sort_newer : List Analysed → List Analysed
sort_newer [] = []
sort_newer (a ∷ as') = insert_newer a (sort_newer as')

unfoldable pub take : ℕ → List Analysed → List Analysed
take zero as' = []
take (suc n) [] = []
take (suc n) (a ∷ as') = a ∷ take n as'

unfoldable pub summaries : List Analysed → List Summary
summaries [] = []
summaries (a ∷ as') =
    record {
      analysis_id = a.result.analysis_id;
      parent_analysis_id = a.result.parent_analysis_id;
      stage = a.job.stage;
      e1_count = a.job.e1_count;
      completed_at = a.result.completed_at;
      grade = a.result.grade;
    }
    ∷ summaries as'

unfoldable pub bounded_story_context : String → Db → StoryMemory
bounded_story_context id db = record {
  story = find StoryRow.story_id id db.stories;
  latest_materialised_state = latest_state id db;
  prior_analysis_summaries = summaries (reverse (take 6 (sort_newer (story_results id db))));
}
