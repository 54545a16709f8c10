-- ===== src/Ingest/Service/History.antt =====
-- The history of a setup explains its state: it is a path of the lifecycle that Event 0.2 has.
use mathlib.Core.Path.{subst}
use trading_ai_pipeline.Base.{
  ℕ, suc, ◌≡◌, refl, sym, ap, ◌∙◌, String, Bool, true, false, not, ◌&&◌, ◌||◌, List, [], ◌∷◌,
  Option, none, some, length, select, str_eq, str_eq_iff, if◌then◌else◌, arith, Bool-cases, inl,
  inr,
}
use trading_ai_pipeline.Base.Table.{find}
use trading_ai_pipeline.Output.Stamp.{Time}
use trading_ai_pipeline.Ingest.Service.Lifecycle.{
  EventType, setup_candidate, snr_rejection_ready, snr_break_ready, setup_invalidated,
  setup_expired, EventClass, transition, by_type, is_telemetry, is_terminal,
}
use trading_ai_pipeline.Ingest.Service.Rows.{
  Event, Disposition, SetupRow, HistoryRow, Db, empty_db, Hashes, ProjectAConfig,
}
use trading_ai_pipeline.Ingest.Service.Validate.{
  validate_v02_lifecycle_support, runtime_validate, class_has, is_lifecycle, supported,
}
use trading_ai_pipeline.Ingest.Service.Commit.{
  Delivery, current, state_of, setup_row, history_row, upsert_setup, next_version,
}
use trading_ai_pipeline.Ingest.Service.Receive.{Setting, check_event, good}
use trading_ai_pipeline.Ingest.Service.Step.{Run}
use trading_ai_pipeline.Ingest.Service.Frames.{Frame}
use trading_ai_pipeline.Ingest.Service.Frames.Runs.{Run-R, check_event-good}
use trading_ai_pipeline.Ingest.Service.Setups.{find-upsert, current-find}

-- The event types that change a setup in Event 0.2.
abbrev is_supported : EventType → Bool
is_supported setup_candidate = true
is_supported snr_rejection_ready = true
is_supported snr_break_ready = true
is_supported setup_invalidated = true
is_supported setup_expired = true
is_supported _ = false

abbrev IsV02 : Event → Type 0
IsV02 e = (is_telemetry e.event_class || is_supported e.event_type) ≡ true

pub runtime_validate-class :
    (c : ProjectAConfig) (now : Time) (e : Event)
    → runtime_validate c now e ≡ none
    → class_has e.event_class e.event_type ≡ true
unfolding runtime_validate
runtime_validate-class c now e q = ground (arith, q)

lifecycle-supported :
    (e : Event)
    → validate_v02_lifecycle_support e ≡ none
    → (is_lifecycle e.event_class && not (supported e.event_type e.disposition)) ≡ false
unfolding validate_v02_lifecycle_support
lifecycle-supported e q = ground (arith, q)

class-supported :
    (class : EventClass) (type : EventType) (d : Disposition)
    → class_has class type ≡ true
    → (is_lifecycle class && not (supported type d)) ≡ false
    → (is_telemetry class || is_supported type) ≡ true
unfolding class_has
class-supported EventClass.telemetry type d h k = refl
class-supported EventClass.candidate type d h k = ground (arith, h)
class-supported EventClass.analysis_ready type d h k = ground (arith, h)
class-supported EventClass.lifecycle type d h k = ground (arith, h, k)

checked-IsV02 :
    (c : ProjectAConfig) (now : Time) (e : Event) → check_event c now e ≡ good e → IsV02 e
checked-IsV02 c now e q =
    let (_, lifecycle, valid) = check_event-good c now e e q in
    class-supported e.event_class e.event_type e.disposition (runtime_validate-class c now e valid)
      (lifecycle-supported e lifecycle)

-- The lifecycle: a candidate or a ready setup is new; a candidate may become ready; both may end; a
-- setup that has ended stays as it is.
abbrev pub may_move : Option EventType → Option EventType → Bool
may_move none (some setup_candidate) = true
may_move none (some snr_rejection_ready) = true
may_move none (some snr_break_ready) = true
may_move (some setup_candidate) (some next) = is_supported next
may_move (some snr_rejection_ready) (some setup_candidate) = false
may_move (some snr_rejection_ready) (some next) = is_supported next
may_move (some snr_break_ready) (some setup_candidate) = false
may_move (some snr_break_ready) (some next) = is_supported next
may_move (some setup_invalidated) (some setup_invalidated) = true
may_move (some setup_expired) (some setup_expired) = true
may_move _ _ = false

abbrev is_reached : Option EventType → Bool
is_reached none = true
is_reached (some s) = is_supported s

may_move-reached : (p q : Option EventType) → may_move p q ≡ true → is_reached q ≡ true
may_move-reached p q h = ground (arith, h)

by_type-moves :
    (o : Option EventType) (type next : EventType)
    → is_reached o ≡ true
    → is_terminal o ≡ false
    → is_supported type ≡ true
    → (by_type type o).allowed ≡ true
    → (by_type type o).next_state ≡ some next
    → may_move o (some next) ≡ true
unfolding by_type
by_type-moves o setup_candidate next r t v a n = ground arith
by_type-moves o snr_rejection_ready next r t v a n = ground arith
by_type-moves o snr_break_ready next r t v a n = ground arith
by_type-moves o setup_invalidated next r t v a n = ground arith
by_type-moves o setup_expired next r t v a n = ground arith
by_type-moves o type next r t v a n = absurd (ground (arith, v))

transition-moves :
    (o : Option EventType) (class : EventClass) (type next : EventType)
    → is_reached o ≡ true
    → (is_telemetry class || is_supported type) ≡ true
    → (transition o class type).allowed ≡ true
    → (transition o class type).next_state ≡ some next
    → may_move o (some next) ≡ true
unfolding transition
transition-moves o class type next r v a n = elim (Bool-cases (is_telemetry class)) [
  | inl k ↦ ground arith
  | inr k ↦ elim (Bool-cases (is_terminal o)) [
    | inl t ↦ absurd (ground arith)
    | inr t ↦ by_type-moves o type next r t (ground arith) (ground arith) (ground arith)
  ]
]

-- A path of the lifecycle, newest entry first, that ends in a state.
abbrev pub Trail : Option EventType → List HistoryRow → Type 0
Trail state [] = state ≡ none
Trail state (x ∷ xs) =
    (x.next_state ≡ state)
    × (may_move x.previous_state x.next_state ≡ true)
    × Trail x.previous_state xs

abbrev pub version_of : Option SetupRow → ℕ
version_of none = 0
version_of (some r) = r.version

abbrev pub history_of : String → Db → List HistoryRow
history_of id db = select (λ x. str_eq x.setup_id id) db.history

abbrev Explains : Option SetupRow → List HistoryRow → Type 0
Explains o hs = Trail (state_of o) hs × (length hs ≡ version_of o)

abbrev IsTracked : Db → Type 0
IsTracked db = (id : String) → Explains (find SetupRow.setup_id id db.setups) (history_of id db)

Trail-reached : (q : Option EventType) (hs : List HistoryRow) → Trail q hs → is_reached q ≡ true
Trail-reached q [] t = rw t refl
Trail-reached q (x ∷ xs) t = may_move-reached x.previous_state q (rw t.0 at t.1)

Explains-step :
    (h : Hashes) (d : Delivery) (e : Event) (id : String) (next : EventType) (o : Option SetupRow)
    (hs : List HistoryRow)
    → IsV02 e
    → (transition (state_of o) e.event_class e.event_type).allowed ≡ true
    → (transition (state_of o) e.event_class e.event_type).next_state ≡ some next
    → Explains o hs
    → Explains
        (some (setup_row h d e id next o))
        (history_row h d e id (transition (state_of o) e.event_class e.event_type) o ∷ hs)
Explains-step h d e id next o hs v a n (t, len) =
    let reached = Trail-reached (state_of o) hs t in
    (
      (
        n,
        subst (λ q. may_move (state_of o) q ≡ true) (sym n)
            (transition-moves (state_of o) e.event_class e.event_type next reached v a n),
        t,
      ),
      counted o len,
    )
  where
    counted : (o : Option SetupRow) {k : ℕ} → k ≡ version_of o → suc k ≡ next_version o
    counted none q = omega (arith, q)
    counted (some r) q = omega (arith, q)

frame : Frame IsV02 (λ db db'. IsTracked db → IsTracked db')
frame = record {
  same = λ db t. t;
  chain = λ a b c p q t. q (p t);
  receipts = λ r db t. t;
  processing = λ p db t. t;
  letters = λ ds db t. t;
  queued = λ r db free t. t;
  changed = λ id g tries db keep grow due t. t;
  events = λ r db f t. t;
  setup = λ h d e id next db v k a n l t j.
      let row = setup_row h d e id next (current e db) in
      let old = current-find e id db k in
      let upserted : find SetupRow.setup_id j (upsert_setup row (current e db) db.setups)
          ≡ (if str_eq id j then some row else find SetupRow.setup_id j db.setups) =
        ap (λ o. find SetupRow.setup_id j (upsert_setup row o db.setups)) old
        ∙ find-upsert row j db.setups in
      rw upserted (elim (Bool-cases (str_eq id j)) [
        | inr c ↦ rw c (t j)
        | inl c ↦
            let same : current e db ≡ find SetupRow.setup_id j db.setups =
              old ∙ ap (λ i. find SetupRow.setup_id i db.setups) ((str_eq_iff id j).0 c) in
            rw c (
              Explains-step h d e id next (current e db) (history_of j db) v a n
                (subst (λ o. Explains o (history_of j db)) (sym same) (t j)))
      ]);
}

-- From empty tables, over any run of calls: the history of a setup, newest first, is a path of the
-- lifecycle from nothing to the stored state, each entry beginning where the one before it ended, and
-- the version of the setup is the number of entries.
pub history_explains_state :
    (s : Setting) (db : Db) (id : String)
    → Run s empty_db db
    → Trail (state_of (find SetupRow.setup_id id db.setups)) (history_of id db)
      × (length (history_of id db) ≡ version_of (find SetupRow.setup_id id db.setups))
unfolding find
history_explains_state s db id run =
    Run-R IsV02 _ frame s (checked-IsV02 s.config) empty_db db run (λ i. (refl, refl)) id
