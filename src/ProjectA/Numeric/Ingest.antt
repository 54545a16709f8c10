-- ===== src/ProjectA/Numeric/Ingest.antt =====
-- NumericMarketState.ingest, with the rollback of an event that cannot be replayed, and the history
-- that save_history writes and load_history reads.
use trading_ai_pipeline.Base.{
  String, Bool, true, false, ◌&&◌, Option, none, some, List, [], ◌∷◌, ◌++◌, map, str_eq,
  if◌then◌else◌,
}
use trading_ai_pipeline.ProjectA.Numeric.Events.{CanonicalEvent, Decimals}
use trading_ai_pipeline.ProjectA.Numeric.View.{
  View, empty_view, Result, ok, err, NumericError, event_id_conflict,
}
use trading_ai_pipeline.ProjectA.Numeric.Fold.{rebuild, sort_events}

-- The events stand in the order of the dictionary `_events`; the view holds all that `_rebuild` sets.
pub record NumericState : Type 0 where
  pub events : List CanonicalEvent
  pub view : View

abbrev pub empty_state : NumericState
empty_state = record { events = []; view = empty_view }

-- producer_key, of which canonical_event_id is the hash, so that one dictionary follows the other.
abbrev pub same_producer : CanonicalEvent → CanonicalEvent → Bool
same_producer a b =
    str_eq a.producer_id b.producer_id
    && str_eq a.producer_revision b.producer_revision
    && str_eq a.producer_event_id b.producer_event_id

unfoldable pub find_producer : CanonicalEvent → List CanonicalEvent → Option CanonicalEvent
find_producer e [] = none
find_producer e (k ∷ ks) = if same_producer k e then some k else find_producer e ks

pub record IngestResult : Type 0 where
  pub accepted : Bool
  pub duplicate : Bool
  pub event : CanonicalEvent

-- The state after a call, and what it returns or raises.
abbrev pub Outcome : Type 0
Outcome = NumericState × Result IngestResult

unfoldable pub repeated : NumericState → CanonicalEvent → CanonicalEvent → Outcome
repeated s e existing =
    if str_eq existing.canonical_payload_sha256 e.canonical_payload_sha256
    then (s, ok (record { accepted = false; duplicate = true; event = existing }))
    else (s, err event_id_conflict)

-- The handler deletes the event, builds the state again and raises the first error; where the second
-- build fails, its error is raised and the view stays.
unfoldable pub roll_back : Decimals → NumericState → NumericError → Outcome
roll_back d s x = elim (rebuild d s.events) [
  | ok v ↦ (record s { view = v }, err x)
  | err y ↦ (s, err y)
]

unfoldable pub accept : Decimals → NumericState → CanonicalEvent → Outcome
accept d s e = elim (rebuild d (s.events ++ (e ∷ []))) [
  | ok v ↦ (
    record { events = s.events ++ (e ∷ []); view = v },
    ok (record { accepted = true; duplicate = false; event = e }),
  )
  | err x ↦ roll_back d s x
]

unfoldable pub ingest : Decimals → NumericState → CanonicalEvent → Outcome
ingest d s e = elim (find_producer e s.events) [
  | some existing ↦ repeated s e existing
  | none ↦ accept d s e
]

-- What the code takes from base64: the line of a payload, and the payload of a line that is valid.
pub record Codec (Line : Type 0) : Type 0 where
  pub b64encode : String → Line
  pub b64decode : Line → Option String

-- parse_numeric_event; `none` is an exception.
abbrev pub Parser : Type 0
Parser = String → Option CanonicalEvent

module _ {Line : Type 0} (c : Codec Line) (parse : Parser) (d : Decimals) where
  unfoldable pub save_history : NumericState → List Line
  save_history s = map (λ e. c.b64encode e.raw_payload) (sort_events s.events)

  unfoldable pub read_line : Line → Option CanonicalEvent
  read_line l = elim (c.b64decode l) [ none ↦ none | some payload ↦ parse payload ]

  -- The lines are those that are not empty. `none` is an exception: a line that cannot be read, or an
  -- event that is refused.
  unfoldable pub load_from : NumericState → List Line → Option NumericState
  load_from s [] = some s
  load_from s (l ∷ ls) = elim (read_line l) [
    | none ↦ none
    | some e ↦ elim (ingest d s e).1 [ ok r ↦ load_from (ingest d s e).0 ls | err x ↦ none ]
  ]

  unfoldable pub load_history : List Line → Option NumericState
  load_history lines = load_from empty_state lines
