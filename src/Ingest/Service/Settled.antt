-- ===== src/Ingest/Service/Settled.antt =====
-- A row of the outbox that has been delivered, or given up, is settled: no call changes it again.
use mathlib.Core.Path.{subst}
use mathlib.Core.Option
use trading_ai_pipeline.Base.{
  ◌≡◌, ◌≢◌, refl, sym, ◌∙◌, String, false, ◌∷◌, none, some, select, str_eq, str_eq_iff, arith,
  Bool-cases, Option-cases, inl, inr, ℕ,
}
use trading_ai_pipeline.Base.Search.{first_by}
use trading_ai_pipeline.Base.Table.{find, update, Unique, Unique-update, find-update}
use trading_ai_pipeline.Output.Stamp.{Time}
use trading_ai_pipeline.Ingest.Service.Rows.{OutboxRow, Db, ProjectAConfig, Hashes, iso}
use trading_ai_pipeline.Ingest.Service.Outbox.{
  claim_outbox, deliver_outbox, fail_outbox, retry_outbox, claimable, created_before, held_row,
  is_failed,
}
use trading_ai_pipeline.Ingest.Service.Receive.{Setting}
use trading_ai_pipeline.Ingest.Service.Step.{Run}
use trading_ai_pipeline.Ingest.Service.Frames.{Frame, Touches, is_active}
use trading_ai_pipeline.Ingest.Service.Frames.Outbox.{claim-Touches, held-Touches, failed-active}
use trading_ai_pipeline.Ingest.Service.Frames.Runs.{Run-R}
use trading_ai_pipeline.Ingest.Service.Redelivery.{AnyEvent}

-- The row of an id, when it is neither waiting nor claimed.
abbrev pub IsSettled : String → OutboxRow → Db → Type 0
IsSettled id r db = (find OutboxRow.outbox_id id db.outbox ≡ some r) × (is_active r.status ≡ false)

-- The primary key of the outbox is kept, and settled rows stay as they are.
abbrev Stays : Db → Db → Type 0
Stays db db' =
    Unique OutboxRow.outbox_id db.outbox
    → Unique OutboxRow.outbox_id db'.outbox
      × ((id : String) (r : OutboxRow) → IsSettled id r db → IsSettled id r db')

queued-Stays :
    (r : OutboxRow) (db : Db)
    → find OutboxRow.outbox_id r.outbox_id db.outbox ≡ none
    → Stays db (record db { outbox = r ∷ db.outbox })
unfolding find
queued-Stays r db free u =
    ((free, u), (λ id x k. (ground (arith, free, k.0, str_eq_iff r.outbox_id id), k.1)))

changed-Stays :
    (id : String) (g : OutboxRow → OutboxRow) (db : Db)
    → ((r : OutboxRow) → (g r).outbox_id ≡ r.outbox_id)
    → Touches id db
    → Stays db (record db { outbox = update OutboxRow.outbox_id id g db.outbox })
changed-Stays id g db keep due u = (
  Unique-update OutboxRow.outbox_id id g db.outbox keep u,
  λ j r k. elim (Bool-cases (str_eq id j)) [
    | inl c ↦
        let same : id ≡ j = (str_eq_iff id j).0 c in
        let active =
          due u r (subst (λ i. find OutboxRow.outbox_id i db.outbox ≡ some r) (sym same) k.0) in
        absurd (ground (arith, active, k.1))
    | inr c ↦ (find-update OutboxRow.outbox_id id j g db.outbox keep ∙ rw c k.0, k.1)
  ],
)

Stays-Frame : Frame AnyEvent Stays
Stays-Frame = record {
  same = λ db u. (u, λ id r k. k);
  chain = λ a b c p q u.
      let (v, first) = p u in let (w, then) = q v in (w, λ id r k. then id r (first id r k));
  receipts = λ r db u. (u, λ id r k. k);
  processing = λ p db u. (u, λ id r k. k);
  letters = λ ds db u. (u, λ id r k. k);
  queued = λ r db free. queued-Stays r db free;
  changed = λ id g tries db keep grow due. changed-Stays id g db keep due;
  events = λ r db free u. (u, λ id r k. k);
  setup = λ h d e id next db v k a n l u. (u, λ i r m. m);
}

pub IsSettled-Run :
    (s : Setting) (id : String) (r : OutboxRow) (db db' : Db)
    → Unique OutboxRow.outbox_id db.outbox
    → Run s db db'
    → IsSettled id r db
    → Unique OutboxRow.outbox_id db'.outbox × IsSettled id r db'
IsSettled-Run s id r db db' u run k =
    let (v, stays) = Run-R AnyEvent Stays Stays-Frame s (λ t e c. tt) db db' run u in
    (v, stays id r k)

settled_unheld :
    (id worker : String) (r : OutboxRow) (db : Db)
    → Unique OutboxRow.outbox_id db.outbox
    → IsSettled id r db
    → held_row id worker db ≡ none
settled_unheld id worker r db u k = elim (Option-cases (held_row id worker db)) [
  | inl n ↦ n
  | inr (x, h) ↦ absurd (ground (arith, held-Touches id worker db x h u r k.0, k.1))
]

-- No call of a worker or of an operator gets hold of a row.
abbrev pub IsUntouchable : String → Db → Type 0
IsUntouchable id db =
    (c : ProjectAConfig) (h : Hashes) (letter_id : String) (now : Time) (worker : String)
    (delay : ℕ)
    → (Option.map OutboxRow.outbox_id (claim_outbox now worker db).0 ≢ some id)
      × (deliver_outbox now id worker db ≡ (false, db))
      × (fail_outbox c h letter_id now id worker delay db ≡ some (none, db))
      × (retry_outbox now id db ≡ (false, db))

settled_unclaimed :
    (now : Time) (id worker : String) (r : OutboxRow) (db : Db)
    → Unique OutboxRow.outbox_id db.outbox
    → IsSettled id r db
    → Option.map OutboxRow.outbox_id (claim_outbox now worker db).0 ≢ some id
unfolding claim_outbox
settled_unclaimed now id worker r db u k e =
    elim (Option-cases (first_by created_before (select (claimable (iso now)) db.outbox))) [
      | inl n ↦ absurd (ground (arith, rw (n, claim_outbox) at e))
      | inr (x, q) ↦
          let same : x.outbox_id ≡ id = ground (arith, rw (q, claim_outbox) at e) in
          let due = subst (λ i. Touches i db) same (claim-Touches (iso now) db x q) in
          absurd (ground (arith, due u r k.0, k.1))
    ]

settled_unretried :
    (now : Time) (id : String) (r : OutboxRow) (db : Db)
    → IsSettled id r db
    → retry_outbox now id db ≡ (false, db)
unfolding retry_outbox
settled_unretried now id r db k = elim (Bool-cases (is_failed r.status)) [
  | inl c ↦ absurd (ground (arith, failed-active r.status c, k.1))
  | inr c ↦ rw (k.0, retry_outbox) (rw c refl)
]

pub IsSettled-IsUntouchable :
    (id : String) (r : OutboxRow) (db : Db)
    → Unique OutboxRow.outbox_id db.outbox
    → IsSettled id r db
    → IsUntouchable id db
unfolding deliver_outbox fail_outbox
IsSettled-IsUntouchable id r db u k c h letter_id now worker delay = (
  settled_unclaimed now id worker r db u k,
  rw (settled_unheld id worker r db u k, deliver_outbox) refl,
  rw (settled_unheld id worker r db u k, fail_outbox) refl,
  settled_unretried now id r db k,
)
