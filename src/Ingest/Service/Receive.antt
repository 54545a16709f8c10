-- ===== src/Ingest/Service/Receive.antt =====
-- ProjectAIngestService.receive of service.py: the raw bytes are stored first, in a transaction of
-- their own; what follows is either committed or stored as a rejection.
use trading_ai_pipeline.Base.{
  ℕ, ◌==◌, ltb, String, Bool, true, false, not, ◌&&◌, [], ◌∷◌, Option, none, some, str_eq,
  if◌then◌else◌,
}
use trading_ai_pipeline.Base.Text.{Text, codes, strip, text_eq, lower}
use trading_ai_pipeline.Output.Stamp.{Time}
use trading_ai_pipeline.Ingest.Service.Rows.{
  ProjectAConfig, Event, Receipt, Db, Hashes, Ids, IngestResult, ResultCode, RuntimeReject, Status,
  Note, Processing, iso, has_receipt, method_not_allowed, content_type_unsupported, body_too_large,
  body_encoding_invalid, malformed_json, document_type, schema_version_missing,
  schema_version_unsupported, structural_validation_failed, semantic_validation_failed,
  persistence_failure,
}
use trading_ai_pipeline.Ingest.Service.Validate.{
  reject, validate_v02_lifecycle_support, runtime_validate,
}
use trading_ai_pipeline.Ingest.Service.Commit.{
  Delivery, dead_letter, insert_processing, commit_validated, ◌>>=◌,
}

pub data Version : Type 0 where
  missing supported other : Version

-- What validate_contract says of a document; `raising` is any exception but a ContractError.
pub data Check : Type 0 where
  structural semantic raising : Check
  valid : Event → Check

-- What the libraries read from the bytes: an object with its ids, where they are texts. `raising` is an
-- exception that the service does not handle, as the RecursionError of nested brackets.
pub data Reading : Type 0 where
  undecodable unparsable not_object raising : Reading
  object : Option String → Option String → Version → Check → Reading

-- `recordable` says that the ids and the version of the bytes can be encoded and stored, which a lone
-- surrogate cannot.
pub record Reader : Type 0 where
  pub read : String → Reading
  pub size : String → ℕ
  pub recordable : String → Bool

pub record Request : Type 0 where
  pub raw_body : String
  pub content_type : Option String
  pub method : String
  pub raw_complete : Bool
  pub pre_error : Option RuntimeReject
  pub replay_operation_id : Option String

pub record Setting : Type 0 where
  pub config : ProjectAConfig
  pub hashes : Hashes
  pub reader : Reader

pub data Checked : Type 0 where
  raises : Checked
  bad : RuntimeReject → Checked
  good : Event → Checked

-- s.split(";", 1)[0]
unfoldable pub before_semicolon : Text → Text
before_semicolon [] = []
before_semicolon (c ∷ s) = if c == b';' then [] else c ∷ before_semicolon s

unfoldable pub media_type : Option String → Text
media_type none = []
media_type (some s) = lower (strip (before_semicolon (codes s)))

unfoldable pub check_event : ProjectAConfig → Time → Event → Checked
check_event c now e = elim (validate_v02_lifecycle_support e) [
  | some r ↦ bad r
  | none ↦ elim (runtime_validate c now e) [
    | some r ↦ bad r
    | none ↦ if e.renders then good e else raises
  ]
]

unfoldable pub check_document : ProjectAConfig → Time → Check → Checked
check_document c now structural = bad (reject structural_validation_failed)
check_document c now Check.raising = raises
check_document c now semantic = bad (reject semantic_validation_failed)
check_document c now (valid e) = check_event c now e

unfoldable pub check_version : ProjectAConfig → Time → Version → Check → Checked
check_version c now missing k = bad (reject schema_version_missing)
check_version c now other k = bad (reject schema_version_unsupported)
check_version c now supported k = check_document c now k

unfoldable pub check_reading : ProjectAConfig → Time → Reading → Checked
check_reading c now undecodable = bad (reject body_encoding_invalid)
check_reading c now Reading.raising = raises
check_reading c now unparsable = bad (reject malformed_json)
check_reading c now not_object = bad (reject document_type)
check_reading c now (object event_id setup_id v k) = check_version c now v k

abbrev wrong_method : RuntimeReject
wrong_method = record { code = method_not_allowed; status = 405; replay_eligible = false }

abbrev wrong_type : RuntimeReject
wrong_type = record { code = content_type_unsupported; status = 415; replay_eligible = true }

abbrev too_large : RuntimeReject
too_large = record { code = body_too_large; status = 413; replay_eligible = false }

unfoldable pub examine : Setting → Time → Request → Checked
unfolding media_type
examine s now q = elim q.pre_error [
  | some r ↦ bad r
  | none ↦
      if not (str_eq q.method "POST")
      then bad wrong_method
      else if not (text_eq (media_type q.content_type) (codes "application/json"))
      then bad wrong_type
      else if ltb s.config.max_body_bytes (s.reader.size q.raw_body)
      then bad too_large
      else check_reading s.config now (s.reader.read q.raw_body)
]

-- _safe_ids_from_body
abbrev pub event_id_of : Reading → Option String
event_id_of (object event_id setup_id v k) = event_id
event_id_of _ = none

abbrev pub setup_id_of : Reading → Option String
setup_id_of (object event_id setup_id v k) = setup_id
setup_id_of _ = none

abbrev pub receipt : Setting → Ids → Time → Request → Receipt
receipt s ids now q = record {
  ingest_id = ids.ingest_id;
  raw_body = q.raw_body;
  body_hash = s.hashes.body q.raw_body;
  raw_complete = q.raw_complete;
  received_at = iso now;
  method = q.method;
}

unfoldable pub store_raw : Receipt → Db → Option Db
store_raw r db =
    if has_receipt r.ingest_id db then none else some (record db { receipts = r ∷ db.receipts })

-- An exception of the last transaction leaves the tables as they were.
abbrev pub settle : Db → IngestResult → Option Db → Db × Option IngestResult
settle db r none = (db, none)
settle db r (some db') = (db', some r)

abbrev pub rejection : Setting → Ids → Time → Request → RuntimeReject → IngestResult
rejection s ids now q r = record {
  ingest_id = ids.ingest_id;
  result_code = ResultCode.refused r.code;
  http_status = r.status;
  event_id = event_id_of (s.reader.read q.raw_body);
  setup_id = setup_id_of (s.reader.read q.raw_body);
  duplicate = false;
  dispatch_key = none;
  transition_code = none;
}

abbrev pub rejection_row : Setting → Ids → Time → Request → RuntimeReject → Processing
rejection_row s ids now q r = record {
  ingest_id = ids.ingest_id;
  recorded_at = iso now;
  status = Status.rejected;
  event_id = event_id_of (s.reader.read q.raw_body);
  setup_id = setup_id_of (s.reader.read q.raw_body);
  note = Note.refused r.code;
  duplicate_of = none;
  replay_operation_id = q.replay_operation_id;
}

unfoldable pub write_rejection : Setting → Ids → Time → Request → RuntimeReject → Db → Option Db
write_rejection s ids now q r db =
    dead_letter s.hashes ids.rejection_id ids.ingest_id (iso now) r
      (event_id_of (s.reader.read q.raw_body)) (setup_id_of (s.reader.read q.raw_body)) 0 db
    >>= insert_processing (rejection_row s ids now q r)

unfoldable pub record_rejection :
    Setting → Ids → Time → Request → RuntimeReject → Db → Db × Option IngestResult
record_rejection s ids now q r db =
    settle db (rejection s ids now q r) (write_rejection s ids now q r db)

abbrev pub delivery : Setting → Ids → Time → Request → Delivery
delivery s ids now q = record {
  ids = ids;
  body_hash = s.hashes.body q.raw_body;
  now_text = iso now;
  replay_operation_id = q.replay_operation_id;
}

abbrev pub failure_reject : RuntimeReject
failure_reject = record { code = persistence_failure; status = 503; replay_eligible = true }

unfoldable pub commit_or_fail :
    Setting → Ids → Time → Request → Event → Db → Db × Option IngestResult
commit_or_fail s ids now q e db = elim (commit_validated s.hashes (delivery s ids now q) e db) [
  | none ↦ record_rejection s ids now q failure_reject db
  | some (r, db') ↦ (db', some r)
]

-- The handler of a rejection reads the bytes again.
abbrev pub is_read : Reading → Bool
is_read Reading.raising = false
is_read _ = true

abbrev pub is_recordable : Setting → Request → Bool
is_recordable s q = is_read (s.reader.read q.raw_body) && s.reader.recordable q.raw_body

unfoldable pub handle : Setting → Ids → Time → Request → Checked → Db → Db × Option IngestResult
handle s ids now q raises db = (db, none)
handle s ids now q (bad r) db =
    if is_recordable s q then record_rejection s ids now q r db else (db, none)
handle s ids now q (good e) db = commit_or_fail s ids now q e db

-- The tables after a call, and its result; `none` is an exception.
unfoldable pub receive : Setting → Ids → Time → Request → Db → Db × Option IngestResult
receive s ids now q db = elim (store_raw (receipt s ids now q) db) [
  | none ↦ (db, none)
  | some db' ↦ handle s ids now q (examine s now q) db'
]
