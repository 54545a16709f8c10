-- ===== src/Output/Outbox/Create.antt =====
-- OutboxStore.create_thesis_and_deliveries and its queries. An `ORDER BY` is not modelled: the
-- rows stand in the order of the table.
use trading_ai_pipeline.Base.{
  String, Bool, true, false, ◌&&◌, Option, none, some, List, [], ◌∷◌, is_some, select, any, str_eq,
  if◌then◌else◌,
}
use trading_ai_pipeline.Base.Table.{find}
use trading_ai_pipeline.Output.Stamp.{Time, utc_z}
use trading_ai_pipeline.Output.Rows.{
  DeliveryStatus, Delivery, ThesisRow, ThesisDocument, Document, Db, Result, ok, err, Transaction,
  Digest, Part, stable_id, document_hash, canonical_conflict, integrity_error,
}

-- The keyword arguments of `create_thesis_and_deliveries`.
pub record Submission : Type 0 where
  pub thesis : ThesisDocument
  pub request : Document
  pub verdict : Document
  pub audit_ref : String
  pub audit_record_hash : String
  pub audit_envelope : Document
  pub completed_result : Document

pub record Created : Type 0 where
  pub created : Bool
  pub thesis : ThesisDocument
  pub thesis_hash : String
  pub deliveries : List Delivery

unfoldable pub get_thesis : String → Db → Option ThesisDocument
get_thesis setup_id db = elim (find ThesisRow.setup_id setup_id db.theses) [
  | none ↦ none
  | some row ↦ some row.thesis
]

unfoldable pub deliveries_for_setup : String → List Delivery → List Delivery
deliveries_for_setup setup_id rows = select (λ r. str_eq r.setup_id setup_id) rows

-- `same`: the stored row has the content that is submitted again.
unfoldable pub same_content : Digest → Submission → ThesisRow → Bool
same_content d s row =
    str_eq row.thesis_hash (document_hash d s.thesis.canonical)
    && (str_eq row.request_hash (document_hash d s.request)
        && (str_eq row.verdict_hash (document_hash d s.verdict)
            && (str_eq row.audit_ref s.audit_ref
                && (str_eq row.audit_record_hash s.audit_record_hash
                    && (str_eq row.audit_envelope s.audit_envelope
                        && str_eq row.completed_result s.completed_result)))))

unfoldable pub thesis_row : Digest → Submission → Time → ThesisRow
thesis_row d s now = record {
  setup_id = s.thesis.setup_id;
  thesis_id = s.thesis.thesis_id;
  thesis_hash = document_hash d s.thesis.canonical;
  request_hash = document_hash d s.request;
  verdict_hash = document_hash d s.verdict;
  request = s.request;
  verdict = s.verdict;
  thesis = s.thesis;
  audit_ref = s.audit_ref;
  audit_record_hash = s.audit_record_hash;
  audit_envelope = s.audit_envelope;
  completed_result = s.completed_result;
  finalized_at = utc_z now;
}

-- INSERT INTO canonical_theses, whose `thesis_id` is unique; the key `setup_id` is new here.
unfoldable pub insert_thesis : ThesisRow → List ThesisRow → Result (List ThesisRow)
insert_thesis t rows =
    if any (λ r. str_eq r.thesis_id t.thesis_id) rows then err integrity_error else ok (t ∷ rows)

unfoldable pub new_delivery : Digest → ThesisDocument → String → Delivery
new_delivery d thesis renderer_type =
    let thesis_hash = document_hash d thesis.canonical in
    record {
      delivery_id =
          stable_id d "delivery" (Part.text thesis.thesis_id ∷ Part.text renderer_type ∷ []) 32;
      thesis_id = thesis.thesis_id;
      setup_id = thesis.setup_id;
      renderer_type = renderer_type;
      thesis_hash = thesis_hash;
      idempotency_key =
          stable_id d "idem" (Part.text renderer_type ∷ Part.text thesis_hash ∷ []) 40;
      status = DeliveryStatus.pending;
      attempt_count = 0;
      first_attempt_at = none;
      latest_attempt_at = none;
      next_retry_at = none;
      last_error_code = none;
      external_reference = none;
      completion_at = none;
      replay_parent_delivery_id = none;
      claim_owner = none;
      claim_token = none;
      claimed_at = none;
      result = none;
    }

-- INSERT INTO renderer_deliveries, under its primary key and its unique pair.
unfoldable pub insert_delivery : Delivery → List Delivery → Result (List Delivery)
insert_delivery n rows =
    if is_some (find Delivery.delivery_id n.delivery_id rows)
    then err integrity_error
    else if any
        (λ r. str_eq r.renderer_type n.renderer_type && str_eq r.idempotency_key n.idempotency_key)
        rows
    then err integrity_error
    else ok (n ∷ rows)

-- The loop over the renderer types.
unfoldable pub insert_deliveries :
    Digest → ThesisDocument → List String → List Delivery → Result (List Delivery)
insert_deliveries d thesis [] rows = ok rows
insert_deliveries d thesis (t ∷ types) rows =
    elim (insert_delivery (new_delivery d thesis t) rows) [
      | err e ↦ err e
      | ok rows' ↦ insert_deliveries d thesis types rows'
    ]

-- The branch of a setup that is not stored yet.
unfoldable pub create_new : Digest → Submission → List String → Time → Transaction Created
create_new d s renderer_types now db = elim (insert_thesis (thesis_row d s now) db.theses) [
  | err e ↦ err e
  | ok theses ↦ elim (insert_deliveries d s.thesis renderer_types db.deliveries) [
    | err e ↦ err e
    | ok deliveries ↦ ok (
      record {
        created = true;
        thesis = s.thesis;
        thesis_hash = document_hash d s.thesis.canonical;
        deliveries = deliveries_for_setup s.thesis.setup_id deliveries;
      },
      record db { theses = theses; deliveries = deliveries },
    )
  ]
]

unfoldable pub create_thesis_and_deliveries :
    Digest → Submission → List String → Time → Transaction Created
create_thesis_and_deliveries d s renderer_types now db =
    elim (find ThesisRow.setup_id s.thesis.setup_id db.theses) [
      | none ↦ create_new d s renderer_types now db
      | some existing ↦
          if same_content d s existing
          then ok (
            record {
              created = false;
              thesis = existing.thesis;
              thesis_hash = document_hash d s.thesis.canonical;
              deliveries = deliveries_for_setup s.thesis.setup_id db.deliveries;
            },
            db,
          )
          else err canonical_conflict
    ]
