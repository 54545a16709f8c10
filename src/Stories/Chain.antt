-- ===== src/Stories/Chain.antt =====
-- The hash chain of the audit: every run keeps it valid.
use mathlib.Core.List.{reverse-cons}
use trading_ai_pipeline.Base.{
  ℕ, ◌≡◌, refl, String, Bool, true, ◌&&◌, List, [], ◌∷◌, ◌++◌, reverse, length, str_eq, str_eq_iff,
  arith,
}
use trading_ai_pipeline.Stories.Rows.{Envelope, AuditRow, Db, Hashes, ok}
use trading_ai_pipeline.Stories.Audit.{
  genesis, last_hash, audit_row, chain_valid, AuditReport, report,
}
use trading_ai_pipeline.Stories.Step.{Setting, Run}
use trading_ai_pipeline.Stories.Frames.{Writes, frame, Run-Frame}

-- Each record, the newest first, hashes its envelope and names the record before it.
abbrev Linked : Hashes → List AuditRow → Type 0
Linked h [] = Unit {0}
Linked h (r ∷ rows) =
    (r.envelope.previous_hash ≡ last_hash rows)
    × (h.envelope r.envelope ≡ r.record_hash)
    × Linked h rows

-- The hash that the loop holds after the records, the oldest first.
end_hash : String → List AuditRow → String
end_hash previous [] = previous
end_hash previous (r ∷ rows) = end_hash r.record_hash rows

check_record : Hashes → String → AuditRow → Bool
check_record h previous r =
    str_eq r.envelope.previous_hash previous
    && str_eq (h.envelope (record r.envelope { previous_hash = previous })) r.record_hash

chain_valid-append :
    (h : Hashes) (previous : String) (rows : List AuditRow) (r : AuditRow)
    → chain_valid h previous (rows ++ (r ∷ []))
      ≡ (chain_valid h previous rows && check_record h (end_hash previous rows) r)
unfolding chain_valid end_hash check_record
chain_valid-append h previous [] r = ground arith
chain_valid-append h previous (q ∷ rows) r =
    ground (arith, chain_valid-append h q.record_hash rows r)

end_hash-append :
    (previous : String) (rows : List AuditRow) (r : AuditRow)
    → end_hash previous (rows ++ (r ∷ [])) ≡ r.record_hash
unfolding end_hash
end_hash-append previous [] r = refl
end_hash-append previous (q ∷ rows) r = end_hash-append q.record_hash rows r

end_hash-reverse : (rows : List AuditRow) → end_hash genesis (reverse rows) ≡ last_hash rows
unfolding last_hash end_hash
end_hash-reverse [] = refl
end_hash-reverse (r ∷ rows) = rw (reverse-cons r rows, end_hash-append genesis (reverse rows) r)

chain_valid-cons :
    (h : Hashes) (r : AuditRow) (rows : List AuditRow)
    → chain_valid h genesis (reverse (r ∷ rows))
      ≡ (chain_valid h genesis (reverse rows) && check_record h (last_hash rows) r)
chain_valid-cons h r rows =
    rw (reverse-cons r rows, chain_valid-append h genesis (reverse rows) r, end_hash-reverse rows)

same_envelope :
    (e : Envelope) (previous : String)
    → e.previous_hash ≡ previous
    → record e { previous_hash = previous } ≡ e
same_envelope e previous k = ground arith

Linked-valid :
    (h : Hashes) (rows : List AuditRow)
    → Linked h rows
    → chain_valid h genesis (reverse rows) ≡ true
unfolding check_record chain_valid
Linked-valid h [] l = refl
Linked-valid h (r ∷ rows) l =
    let e = same_envelope r.envelope (last_hash rows) l.0 in
    rw (chain_valid-cons h r rows, Linked-valid h rows l.2, e)
      (ground (
        arith,
        l.0,
        l.1,
        str_eq_iff r.envelope.previous_hash (last_hash rows),
        str_eq_iff (h.envelope r.envelope) r.record_hash,
      ))

Links : Hashes → Db → Db → Type 0
Links h db db' = Linked h db.audit → Linked h db'.audit

Links-Writes : (h : Hashes) → Writes h (Links h)
unfolding Links audit_row
Links-Writes h = record {
  rfl = λ db l. l;
  trans = λ a b c f g l. g (f l);
  story = λ r db g l. l;
  job = λ r db g n l. l;
  status = λ r db g l. l;
  capture = λ r db g l. l;
  attempt = λ r db l. l;
  result = λ r db g l. l;
  state = λ r db g o l. l;
  orphan = λ r db l. l;
  audit = λ at action story job document db l. (refl, refl, l);
  health = λ rows db l. l;
}

-- Whatever calls the store commits, in any order, from a database whose audit is empty, `audit` then
-- reports a valid chain, with every record counted.
pub audit_stays_valid :
    (s : Setting) (db db' : Db) (limit : ℕ) (found : AuditReport)
    → db.audit ≡ []
    → Run s db db'
    → report s.hashes limit db' ≡ ok found
    → (found.chain_valid ≡ true) × (found.record_count ≡ length (reverse db'.audit))
unfolding report Links
audit_stays_valid s db db' limit found fresh run e =
    let start : Linked s.hashes db.audit = rw fresh tt in
    let valid =
      Linked-valid s.hashes db'.audit (Run-Frame s (frame (Links-Writes s.hashes)) run start) in
    (ground (arith, e, valid), ground (arith, e))
