-- ===== src/Stories/Inversion.antt =====
-- What the success of a transaction says of its parts.
use trading_ai_pipeline.Base.{◌≡◌, refl, String, Bool, true, false, List, Option, none, some, arith}
use trading_ai_pipeline.Output.Stamp.{Time, plus_seconds}
use trading_ai_pipeline.Stories.Rows.{
  Millis, Entry, StatusRow, Db, Hashes, StoreError, Transaction, Result, ok, err, utc_z, ◌>>=◌,
  ◌>>◌, pure, fail, read, require, require_some, date_overflow,
}
use trading_ai_pipeline.Stories.Tables.{insert_if, insert_status, with_status}
use trading_ai_pipeline.Stories.Audit.{record_audit, audit_row, with_audit}
use trading_ai_pipeline.Stories.Capture.{after}
use trading_ai_pipeline.Base.{ℕ}

-- A successful bind: both parts succeed.
abbrev pub Split : {A B : Type 0} → Transaction A → (A → Transaction B) → Db → B → Db → Type 0
Split {A} m f db b db' = (a : A) × (db1 : Db) × (m db ≡ ok (a, db1)) × (f a db1 ≡ ok (b, db'))

split_ok :
    {A B : Type 0} (f : A → Transaction B) (r : Result (A × Db)) (b : B) (db' : Db)
    → (elim r [ ok (a, db1) ↦ f a db1 | err e ↦ err e ]) ≡ ok (b, db')
    → (a : A) × (db1 : Db) × (r ≡ ok (a, db1)) × (f a db1 ≡ ok (b, db'))
split_ok f (ok (a, db1)) b db' e = (a, db1, refl, e)
split_ok f (err x) b db' e = absurd (ground arith)

pub >>=-ok :
    {A B : Type 0} (m : Transaction A) (f : A → Transaction B) (db : Db) (b : B) (db' : Db)
    → (m >>= f) db ≡ ok (b, db')
    → Split m f db b db'
unfolding ◌>>=◌
>>=-ok m f db b db' e = split_ok f (m db) b db' e

pub >>-ok :
    {B : Type 0} (m : Transaction (Unit {0})) (k : Transaction B) (db : Db) (b : B) (db' : Db)
    → (m >> k) db ≡ ok (b, db')
    → (db1 : Db) × (m db ≡ ok (tt, db1)) × (k db1 ≡ ok (b, db'))
unfolding ◌>>◌
>>-ok m k db b db' e =
    let (_, db1, first, later) = >>=-ok m (λ _. k) db b db' e in (db1, first, later)

pub read-ok :
    {A B : Type 0} (g : Db → A) (f : A → Transaction B) (db : Db) (b : B) (db' : Db)
    → (read g >>= f) db ≡ ok (b, db')
    → f (g db) db ≡ ok (b, db')
unfolding ◌>>=◌ read
read-ok g f db b db' e = e

pub pure-ok : {A : Type 0} (a b : A) (db db' : Db) → pure a db ≡ ok (b, db') → (a ≡ b) × (db ≡ db')
unfolding pure
pure-ok a b db db' e = (ground arith, ground arith)

pub require-ok :
    (b : Bool) (x : StoreError) (db db' : Db) (u : Unit {0})
    → require b x db ≡ ok (u, db')
    → (b ≡ true) × (db ≡ db')
unfolding require pure fail
require-ok true x db db' u e = (refl, ground arith)
require-ok false x db db' u e = absurd (ground arith)

pub require_some-ok :
    {A : Type 0} (o : Option A) (x : StoreError) (a : A) (db db' : Db)
    → require_some o x db ≡ ok (a, db')
    → (o ≡ some a) × (db ≡ db')
unfolding require_some pure fail
require_some-ok none x a db db' e = absurd (ground arith)
require_some-ok (some b) x a db db' e = (ground arith, ground arith)

pub insert_if-ok :
    (fits : Bool) (f : Db → Db) (db db' : Db) (u : Unit {0})
    → insert_if fits f db ≡ ok (u, db')
    → (fits ≡ true) × (f db ≡ db')
unfolding insert_if
insert_if-ok true f db db' u e = (refl, ground arith)
insert_if-ok false f db db' u e = absurd (ground arith)

pub insert_status-ok :
    (r : StatusRow) (db db' : Db) (u : Unit {0})
    → insert_status r db ≡ ok (u, db')
    → with_status r db ≡ db'
unfolding insert_status
insert_status-ok r db db' u e = (insert_if-ok _ (with_status r) db db' u e).1

pub record_audit-ok :
    (h : Hashes) (at : Millis) (action : String) (story job : Option String) (document : List Entry)
    (db db' : Db) (u : Unit {0})
    → record_audit h at action story job document db ≡ ok (u, db')
    → with_audit (audit_row h at action story job document db.audit) db ≡ db'
unfolding record_audit
record_audit-ok h at action story job document db db' u e =
    (insert_if-ok _ (with_audit (audit_row h at action story job document db.audit)) db db' u e).1

pub after-ok :
    (at : Time) (n : ℕ) (t : Millis) (db db' : Db)
    → after at n db ≡ ok (t, db')
    → (later : Time) × (plus_seconds at n ≡ some later) × (utc_z later ≡ t) × (db ≡ db')
unfolding after
after-ok at n t db db' e =
    let (later, db1, first, second) = >>=-ok _ _ db t db' e in
    let (found, same) = require_some-ok (plus_seconds at n) date_overflow later db db1 first in
    let (stamp, same') = pure-ok (utc_z later) t db1 db' second in
    (later, found, stamp, ground (arith, same, same'))

-- A status and an audit record, and then a result: the end of most operations.
pub status_then_audit-ok :
    {A : Type 0} (h : Hashes) (r : StatusRow) (at : Millis) (action : String)
    (story job : Option String) (document : List Entry) (a b : A) (db db' : Db)
    → (insert_status r >> (record_audit h at action story job document >> pure a)) db ≡ ok (b, db')
    → (a ≡ b)
      × (with_audit (audit_row h at action story job document db.audit) (with_status r db) ≡ db')
status_then_audit-ok h r at action story job document a b db db' e =
    let (db1, first, rest) = >>-ok _ _ db b db' e in
    let (db2, second, last) = >>-ok _ _ db1 b db' rest in
    let k1 = insert_status-ok r db db1 tt first in
    let k2 = record_audit-ok h at action story job document db1 db2 tt second in
    let (same, k3) = pure-ok a b db2 db' last in (same, rw (← k3, ← k2, ← k1))
