-- ===== src/Output/Tests/Thesis.antt =====
-- The canonical Thesis.
use trading_ai_pipeline.Base.{◌≡◌, refl, false, some, [], ◌∷◌}
use trading_ai_pipeline.Base.Table.{find}
use trading_ai_pipeline.Output.Rows.{ThesisRow, empty_db, ok, document_hash}
use trading_ai_pipeline.Output.Outbox.Create.{
  create_thesis_and_deliveries, thesis_row, deliveries_for_setup,
}
use trading_ai_pipeline.Output.Outbox.Store.Canonical.{create_again}
use trading_ai_pipeline.Output.Tests.{
  digest, noon, later, submission, renderer_types, stored_db, answer, stored, claimed_db, run,
}

thesis_found :
    find ThesisRow.setup_id "s1" stored_db.theses ≡ some (thesis_row digest submission noon)
unfolding find thesis_row
thesis_found = refl

create_again_example :
    create_thesis_and_deliveries digest submission ("notion" ∷ []) later claimed_db
    ≡ ok (
      record {
        created = false;
        thesis = submission.thesis;
        thesis_hash = document_hash digest "thesis";
        deliveries = deliveries_for_setup "s1" claimed_db.deliveries;
      },
      claimed_db,
    )
create_again_example =
    create_again digest submission renderer_types noon empty_db stored_db answer ("notion" ∷ [])
      later (unfold find in refl) stored run
