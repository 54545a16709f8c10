-- ===== src/Output/Outbox/Store/Canonical.antt =====
-- The canonical Thesis of a setup: written once, and handed out to every renderer.
use text.Mathlib.TextPositions.{eq_refl}
use trading_ai_pipeline.Base.{
  ap, ◌≡◌, refl, String, true, false, none, some, List, [], ◌∷◌, str_eq, str_eq_iff, arith, any,
  select, Bool-cases, Option-cases, inl, inr,
}
use trading_ai_pipeline.Base.Table.{find}
use trading_ai_pipeline.Output.Stamp.{Time, Stamp, utc_z, minus_seconds}
use trading_ai_pipeline.Output.Rows.{
  Delivery, ThesisRow, ThesisDocument, Digest, Db, ok, document_hash,
}
use trading_ai_pipeline.Output.Outbox.Claim.{start_attempt, claim_row, claim}
use trading_ai_pipeline.Output.Outbox.Finish.{retry_time, reported, finish}
use trading_ai_pipeline.Output.Outbox.Recover.{
  is_abandoned, abandon, recover_rows, recover_abandoned,
}
use trading_ai_pipeline.Output.Outbox.Admin.{
  reset_delivery, manual_reset, reconcile_delivery, resolve_uncertain, record_operation,
}
use trading_ai_pipeline.Output.Outbox.Create.{
  Submission, Created, thesis_row, insert_thesis, same_content, new_delivery, insert_deliveries,
  deliveries_for_setup, create_new, create_thesis_and_deliveries,
}
use trading_ai_pipeline.Output.Outbox.Refines.Creation.{
  insert_deliveries-cons, insert_deliveries-keep,
}
use trading_ai_pipeline.Output.Outbox.Outcome.Again.{append_outcome-frame}
use trading_ai_pipeline.Output.Outbox.Store.{
  Step, creates, claims, finishes, recovers, resets, reconciles, records, appends, Run, here, next,
}

theses-recover_rows :
    (now : Stamp) (rows : List Delivery) (db : Db) → (recover_rows now rows db).theses ≡ db.theses
unfolding recover_rows abandon
theses-recover_rows now [] db = refl
theses-recover_rows now (r ∷ rows) db = theses-recover_rows now rows (abandon r.delivery_id now db)

create_new-theses :
    (d : Digest) (s : Submission) (types : List String) (now : Time) (db db' : Db) (res : Created)
    → create_new d s types now db ≡ ok (res, db')
    → db'.theses ≡ thesis_row d s now ∷ db.theses
unfolding create_new insert_thesis
create_new-theses d s types now db db' res h = ground arith

keeps-cons :
    (t r : ThesisRow) (rows : List ThesisRow) (id : String)
    → find ThesisRow.setup_id t.setup_id rows ≡ none
    → find ThesisRow.setup_id id rows ≡ some r
    → find ThesisRow.setup_id id (t ∷ rows) ≡ some r
unfolding find
keeps-cons t r rows id new e = ground (arith, str_eq_iff t.setup_id id)

module _ {d : Digest} where
  Step-canonical :
      {db db' : Db} (id : String) (r : ThesisRow)
      → Step d db db'
      → find ThesisRow.setup_id id db.theses ≡ some r
      → find ThesisRow.setup_id id db'.theses ≡ some r
  Step-canonical {db} {db'} id r (creates s types now res h) e =
      elim (Option-cases (find ThesisRow.setup_id s.thesis.setup_id db.theses)) [
        | inr (old, there) ↦
            let same : db' ≡ db = unfold create_thesis_and_deliveries in ground arith in rw same e
        | inl new ↦
            let ran : create_new d s types now db ≡ ok (res, db') =
              unfold create_thesis_and_deliveries in ground arith in
            rw (create_new-theses d s types now db db' res ran)
              (keeps-cons (thesis_row d s now) r db.theses id (unfold thesis_row in new) e)
      ]
  Step-canonical {db} {db'} id r (claims key worker now limit res h) e =
      let same : db'.theses ≡ db.theses = unfold claim claim_row start_attempt in ground arith in
      rw same e
  Step-canonical {db} {db'} id r (finishes result token seconds res h) e =
      let same : db'.theses ≡ db.theses = unfold finish reported retry_time in ground arith in
      rw same e
  Step-canonical {db} {db'} id r (recovers now timeout n h) e =
      elim (Option-cases (minus_seconds now timeout)) [
        | inl early ↦ absurd (unfold recover_abandoned in ground arith)
        | inr (cutoff, date) ↦
            let rows = select (is_abandoned (utc_z cutoff)) db.deliveries in
            let ran : db' ≡ recover_rows (utc_z now) rows db =
              unfold recover_abandoned in ground arith in
            rw (ran, theses-recover_rows) e
      ]
  Step-canonical {db} {db'} id r (resets actor reason key now res h) e =
      let same : db'.theses ≡ db.theses = unfold manual_reset reset_delivery in ground arith in
      rw same e
  Step-canonical {db} {db'} id r (reconciles actor reason key found reference now res h) e =
      let same : db'.theses ≡ db.theses =
        unfold resolve_uncertain reconcile_delivery in ground arith in
      rw same e
  Step-canonical {db} {db'} id r (records actor reason operation_type now key detail res h) e =
      let same : db'.theses ≡ db.theses = unfold record_operation in ground arith in rw same e
  Step-canonical {db} {db'} id r (appends library payload res h) e =
      let same : db'.theses ≡ db.theses =
        ap Db.theses (append_outcome-frame library d payload db db' res h) in
      rw same e

  -- Once a setup has a canonical Thesis, every later state of the store has the same row for it.
  pub canonical_immutable :
      {db db' : Db} (id : String) (r : ThesisRow)
      → Run d db db'
      → find ThesisRow.setup_id id db.theses ≡ some r
      → find ThesisRow.setup_id id db'.theses ≡ some r
  canonical_immutable id r here e = e
  canonical_immutable id r (next run step) e =
      Step-canonical id r step (canonical_immutable id r run e)

module _ (d : Digest) (s : Submission) (types : List String) (now : Time) (db db' : Db)
    (res : Created) where
  -- A setup that has no Thesis yet gets the submitted one.
  create-canonical :
      find ThesisRow.setup_id s.thesis.setup_id db.theses ≡ none
      → create_thesis_and_deliveries d s types now db ≡ ok (res, db')
      → find ThesisRow.setup_id s.thesis.setup_id db'.theses ≡ some (thesis_row d s now)
  create-canonical new h =
      let ran : create_new d s types now db ≡ ok (res, db') =
        unfold create_thesis_and_deliveries in ground arith in
      rw (create_new-theses d s types now db db' res ran)
        (unfold find thesis_row in rw ((str_eq_iff s.thesis.setup_id s.thesis.setup_id).1 refl))

  same_content-thesis_row : same_content d s (thesis_row d s now) ≡ true
  unfolding same_content thesis_row
  same_content-thesis_row = simp eq_refl

  -- A submission that was stored can be sent again in every later state of the store, for any
  -- renderers and at any time: the answer is the stored Thesis, marked as not created, with the
  -- deliveries that the setup has by then, and nothing changes.
  pub create_again :
      {db'' : Db} (types' : List String) (later : Time)
      → find ThesisRow.setup_id s.thesis.setup_id db.theses ≡ none
      → create_thesis_and_deliveries d s types now db ≡ ok (res, db')
      → Run d db' db''
      → create_thesis_and_deliveries d s types' later db''
        ≡ ok (
          record {
            created = false;
            thesis = s.thesis;
            thesis_hash = document_hash d s.thesis.canonical;
            deliveries = deliveries_for_setup s.thesis.setup_id db''.deliveries;
          },
          db'',
        )
  create_again {db''} types' later new h run =
      let stored =
        canonical_immutable s.thesis.setup_id (thesis_row d s now) run (create-canonical new h) in
      let same = same_content-thesis_row in
      unfold create_thesis_and_deliveries thesis_row in ground arith

module _ (d : Digest) (thesis : ThesisDocument) where
  insert_deliveries-all :
      (types : List String) (rows rows' : List Delivery) (t : String)
      → insert_deliveries d thesis types rows ≡ ok rows'
      → any (str_eq t) types ≡ true
      → find Delivery.delivery_id (new_delivery d thesis t).delivery_id rows'
        ≡ some (new_delivery d thesis t)
  insert_deliveries-all [] rows rows' t h m = cc
  insert_deliveries-all (u ∷ types) rows rows' t h m =
      let (new, rest) = insert_deliveries-cons d thesis u types rows rows' h in
      elim (Bool-cases (str_eq t u)) [
        | inr other ↦
            insert_deliveries-all types (new_delivery d thesis u ∷ rows) rows' t rest (ground arith)
        | inl hit ↦
            let same : t ≡ u = (str_eq_iff t u).0 hit in
            let n = new_delivery d thesis u in
            rw same (
              insert_deliveries-keep d thesis types (n ∷ rows) rows' n.delivery_id n rest
                (unfold find in rw ((str_eq_iff n.delivery_id n.delivery_id).1 refl)))
      ]

-- Storing the Thesis of a new setup is atomic with its deliveries: when the call succeeds, the
-- Thesis is stored and each renderer that the call names has a PENDING delivery of that Thesis.
pub create_fans_out :
    (d : Digest) (s : Submission) (types : List String) (now : Time) (db db' : Db) (res : Created)
    (t : String)
    → find ThesisRow.setup_id s.thesis.setup_id db.theses ≡ none
    → create_thesis_and_deliveries d s types now db ≡ ok (res, db')
    → any (str_eq t) types ≡ true
    → (find ThesisRow.setup_id s.thesis.setup_id db'.theses ≡ some (thesis_row d s now))
      × (find Delivery.delivery_id (new_delivery d s.thesis t).delivery_id db'.deliveries
          ≡ some (new_delivery d s.thesis t))
create_fans_out d s types now db db' res t new h m =
    let ran : create_new d s types now db ≡ ok (res, db') =
      unfold create_thesis_and_deliveries in ground arith in
    let loop : insert_deliveries d s.thesis types db.deliveries ≡ ok db'.deliveries =
      unfold create_new in ground arith in
    (
      create-canonical d s types now db db' res new h,
      insert_deliveries-all d s.thesis types db.deliveries db'.deliveries t loop m,
    )
