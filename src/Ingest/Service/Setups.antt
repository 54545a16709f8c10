-- ===== src/Ingest/Service/Setups.antt =====
-- A setup only moves forward: what every run keeps of the stored state of a setup.
use mathlib.Core.Path.{subst}
use mathlib.Core.Option
use trading_ai_pipeline.Base.{
  ◌≡◌, ◌≤◌, refl, ap, ◌∙◌, String, true, false, List, Option, none, some, str_eq, str_eq_iff,
  if◌then◌else◌, arith, Bool-cases, Option-cases, inl, inr,
}
use trading_ai_pipeline.Base.Table.{find, find-update, find-key}
use trading_ai_pipeline.Output.Stamp.{Stamp, stamp_lt}
use trading_ai_pipeline.Output.Stamp.TextOrder.{text_le_trans, text_lt_irrefl}
use trading_ai_pipeline.Ingest.Service.Lifecycle.{
  EventType, EventClass, transition, is_terminal, is_telemetry,
}
use trading_ai_pipeline.Ingest.Service.Rows.{Event, SetupRow, Db, Hashes}
use trading_ai_pipeline.Ingest.Service.Commit.{
  Delivery, current, state_of, setup_row, upsert_setup, is_late,
}
use trading_ai_pipeline.Ingest.Service.Receive.{Setting}
use trading_ai_pipeline.Ingest.Service.Step.{Run}
use trading_ai_pipeline.Ingest.Service.Frames.{Frame}
use trading_ai_pipeline.Ingest.Service.Frames.Runs.{Run-R}

replaced :
    (r old : SetupRow) (j : String) (rows : List SetupRow)
    → find SetupRow.setup_id r.setup_id rows ≡ some old
    → (if str_eq r.setup_id j
        then Option.map
            (λ (q : SetupRow). record r { setup_id = q.setup_id })
            (find SetupRow.setup_id j rows)
        else find SetupRow.setup_id j rows)
      ≡ (if str_eq r.setup_id j then some r else find SetupRow.setup_id j rows)
replaced r old j rows k = elim (Bool-cases (str_eq r.setup_id j)) [
  | inr c ↦ rw c
  | inl c ↦
      let same : r.setup_id ≡ j = (str_eq_iff r.setup_id j).0 c in
      let found : find SetupRow.setup_id j rows ≡ some old =
        subst (λ i. find SetupRow.setup_id i rows ≡ some old) same k in
      let key : old.setup_id ≡ r.setup_id = find-key SetupRow.setup_id r.setup_id old rows k in
      rw (c, found) (ap (λ i. some (record r { setup_id = i })) key)
]

pub find-upsert :
    (r : SetupRow) (j : String) (rows : List SetupRow)
    → find SetupRow.setup_id j (upsert_setup r (find SetupRow.setup_id r.setup_id rows) rows)
      ≡ (if str_eq r.setup_id j then some r else find SetupRow.setup_id j rows)
unfolding upsert_setup
find-upsert r j rows = elim (Option-cases (find SetupRow.setup_id r.setup_id rows)) [
  | inl k ↦ rw (k, upsert_setup) (unfold find in refl)
  | inr (old, k) ↦
      rw (k, upsert_setup)
        (find-update SetupRow.setup_id r.setup_id j (λ q. record r { setup_id = q.setup_id }) rows
            (λ q. refl)
          ∙ replaced r old j rows k)
]

stamp_le_trans :
    (s t r : Stamp) → stamp_lt t s ≡ false → stamp_lt r t ≡ false → stamp_lt r s ≡ false
unfolding stamp_lt
stamp_le_trans s t r h k = ground (arith, h, k, text_le_trans s.tail t.tail r.tail)

pub current-find :
    (e : Event) (id : String) (db : Db)
    → e.setup_id ≡ some id
    → current e db ≡ find SetupRow.setup_id id db.setups
unfolding current
current-find e id db k = ground (arith, k)

-- A relation on the stored row of each setup that every allowed transition keeps is kept by every write.
pub pointwise :
    (V : Event → Type 0) (Q : Option SetupRow → Option SetupRow → Type 0)
    → ((o : Option SetupRow) → Q o o)
    → ((a b c : Option SetupRow) → Q a b → Q b c → Q a c)
    → ((h : Hashes) (d : Delivery) (e : Event) (id : String) (next : EventType)
          (o : Option SetupRow)
        → V e
        → (transition (state_of o) e.event_class e.event_type).allowed ≡ true
        → (transition (state_of o) e.event_class e.event_type).next_state ≡ some next
        → is_late e o ≡ false
        → Q o (some (setup_row h d e id next o)))
    → Frame V (λ db db'.
      (id : String)
      → Q (find SetupRow.setup_id id db.setups) (find SetupRow.setup_id id db'.setups))
pointwise V Q keep link step = record {
  same = λ db id. keep _;
  chain = λ a b c p q id. link _ _ _ (p id) (q id);
  receipts = λ r db id. keep _;
  processing = λ p db id. keep _;
  letters = λ ds db id. keep _;
  queued = λ r db free id. keep _;
  changed = λ i g tries db same grow due id. keep _;
  events = λ r db f id. keep _;
  setup = λ h d e id next db v k a n l j.
      let row = setup_row h d e id next (current e db) in
      let old = find SetupRow.setup_id id db.setups in
      let upserted : find SetupRow.setup_id j (upsert_setup row (current e db) db.setups)
          ≡ (if str_eq id j then some row else find SetupRow.setup_id j db.setups) =
        ap (λ o. find SetupRow.setup_id j (upsert_setup row o db.setups)) (current-find e id db k)
        ∙ find-upsert row j db.setups in
      rw upserted (elim (Bool-cases (str_eq id j)) [
        | inr c ↦ rw c (keep _)
        | inl c ↦
            let same : current e db ≡ find SetupRow.setup_id j db.setups =
              current-find e id db k
              ∙ ap (λ i. find SetupRow.setup_id i db.setups) ((str_eq_iff id j).0 c) in
            rw c (subst (λ o. Q o (some row)) same (step h d e id next (current e db) v a n l))
      ]);
}

terminal_stays :
    (c next : EventType) (class : EventClass) (type : EventType)
    → (transition (some c) class type).allowed ≡ true
    → (transition (some c) class type).next_state ≡ some next
    → is_terminal (some c) ≡ true
    → next ≡ c
unfolding transition
terminal_stays c next class type a n t = elim (Bool-cases (is_telemetry class)) [
  | inl k ↦ ground (arith, a, n, t, k)
  | inr k ↦ absurd (ground (arith, rw (k, t) at a))
]

-- The row stays, not earlier, of no lower version, for the same symbol, and a state that ends the setup
-- is not left.
abbrev Forward : Option SetupRow → Option SetupRow → Type 0
Forward none o = Unit {0}
Forward (some r) o =
    (r' : SetupRow) × (o ≡ some r')
    × (stamp_lt r'.latest_occurred_at r.latest_occurred_at ≡ false)
    × (r.version ≤ r'.version)
    × (r'.symbol ≡ r.symbol)
    × (is_terminal (some r.lifecycle_state) ≡ true → r'.lifecycle_state ≡ r.lifecycle_state)

stamp_lt_irrefl : (s : Stamp) → stamp_lt s s ≡ false
unfolding stamp_lt
stamp_lt_irrefl s = ground (arith, text_lt_irrefl s.tail)

Forward-same : (o : Option SetupRow) → Forward o o
Forward-same none = tt
Forward-same (some r) =
    (r, refl, stamp_lt_irrefl r.latest_occurred_at, omega arith, refl, λ t. refl)

Forward-chain : (a b c : Option SetupRow) → Forward a b → Forward b c → Forward a c
Forward-chain none b c p q = tt
Forward-chain (some r) b c (r', k, time, version, symbol, ends) q =
    let (s, k', time', version', symbol', ends') = subst (λ o. Forward o c) k q in
    (
      s,
      k',
      stamp_le_trans r.latest_occurred_at r'.latest_occurred_at s.latest_occurred_at time time',
      omega (arith, version, version'),
      symbol' ∙ symbol,
      λ t. ends' (rw (ends t) t) ∙ ends t,
    )

Forward-step :
    (h : Hashes) (d : Delivery) (e : Event) (id : String) (next : EventType) (o : Option SetupRow)
    → Unit {0}
    → (transition (state_of o) e.event_class e.event_type).allowed ≡ true
    → (transition (state_of o) e.event_class e.event_type).next_state ≡ some next
    → is_late e o ≡ false
    → Forward o (some (setup_row h d e id next o))
Forward-step h d e id next none v a n l = tt
Forward-step h d e id next (some r) v a n l = (
  setup_row h d e id next (some r),
  refl,
  l,
  omega arith,
  refl,
  λ t. terminal_stays r.lifecycle_state next e.event_class e.event_type a n t,
)

-- From any tables, over any run of calls: the stored row of a setup stays stored; the time of its latest
-- event, as it compares texts, does not go back; its version does not fall; its symbol is kept; and a
-- setup in a terminal state stays in that state.
pub setup_moves_forward :
    (s : Setting) (db db' : Db) (id : String) (r : SetupRow)
    → Run s db db'
    → find SetupRow.setup_id id db.setups ≡ some r
    → (r' : SetupRow) × (find SetupRow.setup_id id db'.setups ≡ some r')
      × (stamp_lt r'.latest_occurred_at r.latest_occurred_at ≡ false)
      × (r.version ≤ r'.version)
      × (r'.symbol ≡ r.symbol)
      × (is_terminal (some r.lifecycle_state) ≡ true → r'.lifecycle_state ≡ r.lifecycle_state)
setup_moves_forward s db db' id r run k =
    let frame = pointwise (λ e. Unit {0}) Forward Forward-same Forward-chain Forward-step in
    subst (λ o. Forward o (find SetupRow.setup_id id db'.setups)) k
      (Run-R (λ e. Unit {0}) _ frame s (λ now e g. tt) db db' run id)
