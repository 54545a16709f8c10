-- ===== src/Output/Outbox/Outcome.antt =====
-- OutboxStore.append_outcome: the history of MT5 outcomes.
pub mod Again
mod Tests
use trading_ai_pipeline.Base.{
  ℕ, ◌≤◌, String, Bool, true, false, not, ◌&&◌, ◌||◌, Option, none, some, List, [], ◌∷◌, leb, ltb,
  ◌==◌, length, any, all, last?, str_eq, is_empty, is_some, if◌then◌else◌,
}
use trading_ai_pipeline.Base.Int.{ℤ, pos, ltb_ℤ}
use trading_ai_pipeline.Base.Table.{find}
use trading_ai_pipeline.Base.Text.{Text, codes}
use trading_ai_pipeline.Output.Stamp.{text_lt}
use trading_ai_pipeline.Output.Rows.{
  Document, ThesisRow, OutcomeRow, Digest, Db, Result, ok, err, StoreError, Transaction,
  document_hash, timezone_not_utc, timestamp_invalid, outcome_type, outcome_fields_missing,
  outcome_fields_unknown, outcome_identity_type, outcome_field_type, outcome_numeric_invalid,
  outcome_spread_negative, outcome_status, outcome_chronology, outcome_identity_mismatch,
  outcome_conflict, outcome_out_of_order,
}

-- A JSON value of a payload; a number is whole or not finite here.
pub data Value : Type 0 where
  null : Value
  flag : Bool → Value
  str : String → Value
  number : ℤ → Value
  not_finite : Value
  other : Value

abbrev pub Fields : Type 0
Fields = List (String × Value)

pub data Payload : Type 0 where
  object : Fields → Payload
  no_object : Payload

-- What the Python library gives: canonical JSON, and the time in microseconds of an ISO text.
pub record Library : Type 0 where
  pub canonical_json : Fields → Document
  pub fromisoformat : String → Option ℕ

-- OUTCOME_NUMERIC_FIELDS and OUTCOME_FIELDS
abbrev pub outcome_numeric_fields : List String
outcome_numeric_fields =
    "requested_price" ∷ "fill_price" ∷ "spread_points" ∷ "slippage" ∷ "exit_price" ∷ "initial_risk"
    ∷ "mae" ∷ "mfe" ∷ "realised_pl" ∷ "realised_r" ∷ []

abbrev pub outcome_fields : List String
outcome_fields =
    "event_id" ∷ "setup_id" ∷ "thesis_id" ∷ "recorded_at" ∷ "final_status" ∷ "ticket_ref"
    ∷ "open_time" ∷ "close_time" ∷ "exit_reason" ∷ outcome_numeric_fields

-- payload[field], for a field that is there.
unfoldable pub value_of : String → Fields → Value
value_of field [] = null
value_of field ((k, v) ∷ rest) = if str_eq k field then v else value_of field rest

abbrev pub has_field : Fields → String → Bool
has_field fields field = any (λ e. str_eq e.0 field) fields

abbrev pub is_outcome_field : String × Value → Bool
is_outcome_field e = any (str_eq e.0) outcome_fields

abbrev pub is_letter_or_digit : ℕ → Bool
is_letter_or_digit c =
    (leb b'A' c && leb c b'Z') || ((leb b'a' c && leb c b'z') || (leb b'0' c && leb c b'9'))

abbrev pub is_safe_char : ℕ → Bool
is_safe_char c =
    is_letter_or_digit c || ((c == b'.') || ((c == b'_') || ((c == b':') || (c == b'-'))))

-- SAFE_ID.fullmatch
unfoldable pub is_safe_id : Text → Bool
is_safe_id [] = false
is_safe_id (c ∷ rest) =
    is_letter_or_digit c
    && (all is_safe_char rest && (leb 2 (length rest) && leb (length rest) 119))

abbrev pub is_identity : Value → Bool
is_identity (str s) = is_safe_id (codes s)
is_identity _ = false

abbrev pub is_text_or_null : Value → Bool
is_text_or_null null = true
is_text_or_null (str _) = true
is_text_or_null _ = false

abbrev pub is_numeric_or_null : Value → Bool
is_numeric_or_null null = true
is_numeric_or_null (number _) = true
is_numeric_or_null _ = false

abbrev pub is_negative : Value → Bool
is_negative (number n) = ltb_ℤ n (pos 0)
is_negative _ = false

abbrev pub final_statuses : List String
final_statuses = "PARTIAL" ∷ "CLOSED" ∷ "CANCELLED" ∷ "REJECTED" ∷ "UNKNOWN" ∷ []

abbrev pub is_final_status : Value → Bool
is_final_status (str s) = any (str_eq s) final_statuses
is_final_status _ = false

abbrev pub ends_in_z : String → Bool
ends_in_z s = elim (last? (codes s)) [ none ↦ false | some c ↦ c == b'Z' ]

-- models.parse_utc
unfoldable pub parse_utc : Library → Value → Result ℕ
parse_utc library (str s) =
    if ends_in_z s
    then elim (library.fromisoformat s) [ none ↦ err timestamp_invalid | some t ↦ ok t ]
    else err timezone_not_utc
parse_utc library _ = err timezone_not_utc

-- `parse_utc(v) if v is not None else None`
abbrev pub parse_optional : Library → Value → Result (Option ℕ)
parse_optional library null = ok none
parse_optional library v = elim (parse_utc library v) [ err e ↦ err e | ok t ↦ ok (some t) ]

abbrev pub before : Option ℕ → Option ℕ → Bool
before (some a) (some b) = ltb a b
before _ _ = false

-- The checks of the fields, in their order, up to the times.
unfoldable pub field_error : Fields → Option StoreError
field_error fields =
    if not (all (has_field fields) outcome_fields)
    then some outcome_fields_missing
    else if not (all is_outcome_field fields)
    then some outcome_fields_unknown
    else if not
        (all (λ f. is_identity (value_of f fields)) ("event_id" ∷ "setup_id" ∷ "thesis_id" ∷ []))
    then some outcome_identity_type
    else if not (all (λ f. is_text_or_null (value_of f fields)) ("ticket_ref" ∷ "exit_reason" ∷ []))
    then some outcome_field_type
    else if not (all (λ f. is_numeric_or_null (value_of f fields)) outcome_numeric_fields)
    then some outcome_numeric_invalid
    else if is_negative (value_of "spread_points" fields)
    then some outcome_spread_negative
    else if not (is_final_status (value_of "final_status" fields))
    then some outcome_status
    else none

-- The checks of the three times.
unfoldable pub is_unordered : ℕ → Option ℕ → Option ℕ → Bool
is_unordered recorded_at open_at close_at =
    (is_some close_at && not (is_some open_at))
    || (before close_at open_at
        || (before (some recorded_at) open_at || before (some recorded_at) close_at))

-- The time of record of a valid payload.
unfoldable pub validate : Library → Fields → Result ℕ
validate library fields = elim (field_error fields) [
  | some e ↦ err e
  | none ↦ elim (parse_utc library (value_of "recorded_at" fields)) [
    | err e ↦ err e
    | ok recorded_at ↦ elim (parse_optional library (value_of "open_time" fields)) [
      | err e ↦ err e
      | ok open_at ↦ elim (parse_optional library (value_of "close_time" fields)) [
        | err e ↦ err e
        | ok close_at ↦
            if is_unordered recorded_at open_at close_at
            then err outcome_chronology
            else ok recorded_at
      ]
    ]
  ]
]

abbrev pub text_of : Value → String
text_of (str s) = s
text_of _ = ""

-- ORDER BY recorded_at DESC, event_id DESC LIMIT 1: the order of texts.
abbrev pub later_row : OutcomeRow → OutcomeRow → Bool
later_row a b =
    if str_eq a.recorded_at b.recorded_at
    then text_lt (codes b.event_id) (codes a.event_id)
    else text_lt (codes b.recorded_at) (codes a.recorded_at)

unfoldable pub latest_outcome : String → List OutcomeRow → Option OutcomeRow
latest_outcome thesis_id [] = none
latest_outcome thesis_id (r ∷ rows) =
    let rest = latest_outcome thesis_id rows in
    if str_eq r.thesis_id thesis_id
    then elim rest [ none ↦ some r | some b ↦ if later_row b r then some b else some r ]
    else rest

unfoldable pub outcome_row : Library → Digest → Fields → OutcomeRow
outcome_row library d fields = record {
  event_id = text_of (value_of "event_id" fields);
  event_hash = document_hash d (library.canonical_json fields);
  setup_id = text_of (value_of "setup_id" fields);
  thesis_id = text_of (value_of "thesis_id" fields);
  recorded_at = text_of (value_of "recorded_at" fields);
  final_status = text_of (value_of "final_status" fields);
  payload = library.canonical_json fields;
}

-- The part after the query for the same event.
unfoldable pub insert_outcome : Library → ℕ → OutcomeRow → Transaction Bool
insert_outcome library recorded_at row db =
    let written = ok (true, record db { outcomes = row ∷ db.outcomes }) in
    elim (latest_outcome row.thesis_id db.outcomes) [
      | none ↦ written
      | some latest ↦ elim (parse_utc library (str latest.recorded_at)) [
        | err e ↦ err e
        | ok last ↦ if ltb recorded_at last then err outcome_out_of_order else written
      ]
    ]

-- The transaction.
unfoldable pub store_outcome : Library → ℕ → OutcomeRow → Transaction Bool
store_outcome library recorded_at row db = elim (find ThesisRow.thesis_id row.thesis_id db.theses) [
  | none ↦ err outcome_identity_mismatch
  | some t ↦
      if not (str_eq t.setup_id row.setup_id)
      then err outcome_identity_mismatch
      else elim (parse_utc library (str t.thesis.created_at)) [
        | err e ↦ err e
        | ok created_at ↦
            if ltb recorded_at created_at
            then err outcome_chronology
            else elim (find OutcomeRow.event_id row.event_id db.outcomes) [
              | none ↦ insert_outcome library recorded_at row db
              | some existing ↦
                  if str_eq existing.event_hash row.event_hash
                  then ok (false, db)
                  else err outcome_conflict
            ]
      ]
]

unfoldable pub append_outcome : Library → Digest → Payload → Transaction Bool
append_outcome library d no_object db = err outcome_type
append_outcome library d (object fields) db = elim (validate library fields) [
  | err e ↦ err e
  | ok recorded_at ↦ store_outcome library recorded_at (outcome_row library d fields) db
]
