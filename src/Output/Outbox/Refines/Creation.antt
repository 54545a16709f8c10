-- ===== src/Output/Outbox/Refines/Creation.antt =====
-- The creation of a Thesis and its deliveries moves every delivery by a step of `RowStep`, and
-- keeps the primary key.
use trading_ai_pipeline.Base.{
  ◌≡◌, ◌⊎◌, String, none, some, List, [], ◌∷◌, Bool-cases, inl, inr, arith, str_eq, str_eq_iff,
}
use trading_ai_pipeline.Base.Table.{find, Unique}
use trading_ai_pipeline.Output.Stamp.{Time}
use trading_ai_pipeline.Output.Rows.{Delivery, ThesisDocument, Digest, Db, ok}
use trading_ai_pipeline.Output.Outbox.Create.{
  Submission, Created, new_delivery, insert_delivery, insert_deliveries, create_new,
  create_thesis_and_deliveries,
}
use trading_ai_pipeline.Output.Outbox.RowStep.{RowStep}
use trading_ai_pipeline.Output.Outbox.Refines.{Moves, unwritten-Moves}

module _ (d : Digest) (thesis : ThesisDocument) where
  -- A round of the insert loop adds a row whose key is new.
  pub insert_deliveries-cons :
      (t : String) (types : List String) (rows rows' : List Delivery)
      → insert_deliveries d thesis (t ∷ types) rows ≡ ok rows'
      → (find Delivery.delivery_id (new_delivery d thesis t).delivery_id rows ≡ none)
        × (insert_deliveries d thesis types (new_delivery d thesis t ∷ rows) ≡ ok rows')
  unfolding insert_deliveries insert_delivery
  insert_deliveries-cons t types rows rows' h = ground arith

  find-cons_new :
      (n : Delivery) (rows : List Delivery) (j : String) (r : Delivery)
      → find Delivery.delivery_id n.delivery_id rows ≡ none
      → find Delivery.delivery_id j rows ≡ some r
      → find Delivery.delivery_id j (n ∷ rows) ≡ some r
  unfolding find
  find-cons_new n rows j r new e = ground (arith, str_eq_iff n.delivery_id j)

  -- The loop of inserts keeps what is there.
  pub insert_deliveries-keep :
      (types : List String) (rows rows' : List Delivery) (j : String) (r : Delivery)
      → insert_deliveries d thesis types rows ≡ ok rows'
      → find Delivery.delivery_id j rows ≡ some r
      → find Delivery.delivery_id j rows' ≡ some r
  insert_deliveries-keep [] rows rows' j r h e = unfold insert_deliveries in ground arith
  insert_deliveries-keep (t ∷ types) rows rows' j r h e =
      let (new, rest) = insert_deliveries-cons t types rows rows' h in
      insert_deliveries-keep types (new_delivery d thesis t ∷ rows) rows' j r rest
        (find-cons_new (new_delivery d thesis t) rows j r new e)

  insert_deliveries-RowStep :
      (types : List String) (rows rows' : List Delivery) (j : String)
      → insert_deliveries d thesis types rows ≡ ok rows'
      → RowStep d (find Delivery.delivery_id j rows) (find Delivery.delivery_id j rows')
  insert_deliveries-RowStep [] rows rows' j h =
      let same : rows' ≡ rows = unfold insert_deliveries in ground arith in rw same RowStep.stay
  insert_deliveries-RowStep (t ∷ types) rows rows' j h =
      let (new, rest) = insert_deliveries-cons t types rows rows' h in
      let n = new_delivery d thesis t in
      let ih = insert_deliveries-RowStep types (n ∷ rows) rows' j rest in
      elim (Bool-cases (str_eq n.delivery_id j)) [
        | inl hit ↦
            let key : n.delivery_id ≡ j = (str_eq_iff n.delivery_id j).0 hit in
            let before : find Delivery.delivery_id j rows ≡ none = rw (← key) new in
            let there : find Delivery.delivery_id j (n ∷ rows) ≡ some n = unfold find in rw hit in
            let after = insert_deliveries-keep types (n ∷ rows) rows' j n rest there in
            rw (before, after) (RowStep.create thesis t)
        | inr miss ↦
            let there : find Delivery.delivery_id j (n ∷ rows) ≡ find Delivery.delivery_id j rows =
              unfold find in rw miss in
            rw there at ih
      ]

  pub insert_deliveries-Unique :
      (types : List String) (rows rows' : List Delivery)
      → Unique Delivery.delivery_id rows
      → insert_deliveries d thesis types rows ≡ ok rows'
      → Unique Delivery.delivery_id rows'
  insert_deliveries-Unique [] rows rows' u h =
      let same : rows' ≡ rows = unfold insert_deliveries in ground arith in rw same u
  insert_deliveries-Unique (t ∷ types) rows rows' u h =
      let (new, rest) = insert_deliveries-cons t types rows rows' h in
      insert_deliveries-Unique types (new_delivery d thesis t ∷ rows) rows' (new, u) rest

module _ (d : Digest) (s : Submission) (types : List String) (now : Time) (db db' : Db)
    (res : Created) where
  -- What a successful call did to the deliveries: nothing, or the loop of inserts.
  pub create-deliveries :
      create_thesis_and_deliveries d s types now db ≡ ok (res, db')
      → (db'.deliveries ≡ db.deliveries)
        ⊎ (insert_deliveries d s.thesis types db.deliveries ≡ ok db'.deliveries)
  unfolding create_thesis_and_deliveries create_new
  create-deliveries h = ground arith

  pub create-Moves : create_thesis_and_deliveries d s types now db ≡ ok (res, db') → Moves d db db'
  create-Moves h = elim (create-deliveries h) [
    | inl same ↦ unwritten-Moves d db db' same
    | inr ran ↦ record {
      row = λ j. insert_deliveries-RowStep d s.thesis types db.deliveries db'.deliveries j ran;
      keys = λ u. insert_deliveries-Unique d s.thesis types db.deliveries db'.deliveries u ran;
    }
  ]
