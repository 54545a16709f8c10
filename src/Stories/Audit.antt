-- ===== src/Stories/Audit.antt =====
-- _audit, which appends a record to the hash chain, and AnalysisStore.audit, which checks the chain.
use trading_ai_pipeline.Base.{
  ℕ, suc, zero, ◌-◌, String, Bool, true, not, ◌&&◌, leb, List, [], ◌∷◌, Option, reverse, any,
  length, str_eq, if◌then◌else◌,
}
use trading_ai_pipeline.Base.Text.{codes}
use trading_ai_pipeline.Output.Stamp.{text_lt}
use trading_ai_pipeline.Stories.Rows.{
  Millis, Entry, Envelope, AuditRow, Db, Hashes, Transaction, Result, ok, err, limit_out_of_range,
}
use trading_ai_pipeline.Stories.Tables.{insert_if}

-- "0" * 64
abbrev pub genesis : String
genesis = "0000000000000000000000000000000000000000000000000000000000000000"

unfoldable pub last_hash : List AuditRow → String
last_hash [] = genesis
last_hash (r ∷ _) = r.record_hash

-- canonical_json, which sorts the keys of an object by their code points, and these differ.
unfoldable pub insert_entry : Entry → List Entry → List Entry
insert_entry e [] = e ∷ []
insert_entry e (k ∷ ks) =
    if text_lt (codes k.name) (codes e.name) then k ∷ insert_entry e ks else e ∷ k ∷ ks

unfoldable pub sort_entries : List Entry → List Entry
sort_entries [] = []
sort_entries (e ∷ es) = insert_entry e (sort_entries es)

unfoldable pub audit_row :
    Hashes → Millis → String → Option String → Option String → List Entry → List AuditRow → AuditRow
audit_row h stamp action story job document rows =
    let envelope : Envelope = record {
      recorded_at = stamp;
      story_id = story;
      job_id = job;
      action = action;
      document = sort_entries document;
      previous_hash = last_hash rows;
    } in
    record { envelope = envelope; record_hash = h.envelope envelope }

abbrev pub with_audit : AuditRow → Db → Db
with_audit r db = record db { audit = r ∷ db.audit }

-- record_hash is UNIQUE.
unfoldable pub record_audit :
    Hashes → Millis → String → Option String → Option String → List Entry → Transaction (Unit {0})
record_audit h stamp action story job document db =
    let r = audit_row h stamp action story job document db.audit in
    insert_if (not (any (λ q. str_eq q.record_hash r.record_hash) db.audit)) (with_audit r) db

-- The loop over the records, the oldest first.
unfoldable pub chain_valid : Hashes → String → List AuditRow → Bool
chain_valid h previous [] = true
chain_valid h previous (r ∷ rows) =
    str_eq r.envelope.previous_hash previous
    && str_eq (h.envelope (record r.envelope { previous_hash = previous })) r.record_hash
    && chain_valid h r.record_hash rows

pub record AuditReport : Type 0 where
  pub chain_valid : Bool
  pub record_count : ℕ
  pub records : List AuditRow

unfoldable pub drop : ℕ → List AuditRow → List AuditRow
drop zero rows = rows
drop (suc n) [] = []
drop (suc n) (_ ∷ rows) = drop n rows

-- all_rows[-limit:]
unfoldable pub last_rows : ℕ → List AuditRow → List AuditRow
last_rows limit rows = drop (length rows - limit) rows

unfoldable pub report : Hashes → ℕ → Db → Result AuditReport
report h limit db =
    let rows = reverse db.audit in
    if leb 1 limit && leb limit 500
    then ok record {
      chain_valid = chain_valid h genesis rows;
      record_count = length rows;
      records = last_rows limit rows;
    }
    else err limit_out_of_range
