-- ===== src/Stories/Selection.antt =====
-- What a selection with ORDER BY … LIMIT 1 finds, and the row that an operation writes last.
use trading_ai_pipeline.Base.{
  ◌≡◌, refl, String, Bool, true, false, List, ◌∷◌, Memᴰ, none, some, str_eq, if◌then◌else◌,
}
use trading_ai_pipeline.Base.Table.{find}
use trading_ai_pipeline.Stories.Rows.{JobRow, StatusRow, Db}
use trading_ai_pipeline.Base.Search.{first_by-select, first_by-none}
use trading_ai_pipeline.Stories.Tables.{first_job}

pub first_job-select :
    (p : JobRow → Bool) (db : Db) (j : JobRow)
    → first_job p db ≡ some j
    → Memᴰ j db.jobs × (p j ≡ true)
unfolding first_job
first_job-select p db j e = first_by-select _ p db.jobs j e

pub first_job-none :
    (p : JobRow → Bool) (db : Db) (j : JobRow)
    → first_job p db ≡ none
    → Memᴰ j db.jobs
    → p j ≡ false
unfolding first_job
first_job-none p db j e m = first_by-none _ p db.jobs j e m

-- A status that is written is the latest of its job, and leaves the latest of another.
pub latest_status-with_status :
    (r : StatusRow) (id : String) (rows : List StatusRow)
    → find StatusRow.job_id id (r ∷ rows)
      ≡ (if str_eq r.job_id id then some r else find StatusRow.job_id id rows)
unfolding find
latest_status-with_status r id rows = refl
