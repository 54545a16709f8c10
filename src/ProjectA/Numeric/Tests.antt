-- ===== src/ProjectA/Numeric/Tests.antt =====
-- Events, states and histories for the theorems on project_a/numeric_state.py.
use mathlib.Core.List.{Permᴰ}
use trading_ai_pipeline.Base.{
  ℕ, ◌/◌, ◌*◌, ◌≡◌, Memᴰ, ◌≤◌, ◌<◌, ◌↔◌, refl, String, true, false, Option, some, List, [], ◌∷◌,
  is_some, arith, none, str_eq, if◌then◌else◌,
}
use trading_ai_pipeline.Base.Search.{first_by}
use trading_ai_pipeline.Output.Stamp.{text_lt}
use trading_ai_pipeline.ProjectA.Numeric.Events.{
  ask, up, down, fresh, near_touch, far, Lifecycle, Grade, Zone, Payload, CanonicalEvent, Decimals,
}
use trading_ai_pipeline.ProjectA.Numeric.Distance.{
  signed_distance, zone_of, classified, measured, liquidity_distance,
}
use trading_ai_pipeline.ProjectA.Numeric.View.{
  View, ExpansionEvent, empty_view, Result, ok, err, invalid_lifecycle_transition, get_level,
  put_level,
}
use trading_ai_pipeline.ProjectA.Numeric.Select.{
  is_candidate, ranks_before, best, latest_story, chosen_level,
}
use trading_ai_pipeline.ProjectA.Numeric.Fold.{
  price_point, add_price, valid_lifecycle_transition, release, add_expansion, inputs_fresh,
  new_level, write_level, add_liquidity, track, reselect, step_with, step, fold, has_conflict,
  event_before, insert_event, sort_events, checked, rebuild,
}
use trading_ai_pipeline.ProjectA.Numeric.Ingest.{
  NumericState, IngestResult, empty_state, find_producer, roll_back, accept, ingest, Codec, Parser,
  save_history, load_history,
}
use trading_ai_pipeline.ProjectA.Numeric.Rollback.{ingest_rolls_back, ingest-IsReplay, IsReplay}
use trading_ai_pipeline.ProjectA.Numeric.Replay.{load-save}
use trading_ai_pipeline.ProjectA.Numeric.Reached.{Ingested}
use trading_ai_pipeline.ProjectA.Numeric.Arrival.{arrival_order_free, IsOrderable}
use trading_ai_pipeline.ProjectA.Numeric.Newest.{expansion_before_latest}
use trading_ai_pipeline.ProjectA.Numeric.Queries.{
  is_eligible, last_eligible, expansion_before, tracked_level,
}
use trading_ai_pipeline.ProjectA.Numeric.Zones.{zone_boundaries}
use trading_ai_pipeline.ProjectA.Numeric.Tracking.{rebuild-IsSound, IsSound}

abbrev floored : Decimals
floored = record { divide = λ a b. a / b; round = λ n. n }

abbrev event_at : ℕ → String → Payload → CanonicalEvent
event_at time id p = record {
  canonical_event_id = id;
  producer_id = "PINE";
  producer_revision = "r1";
  producer_event_id = id;
  source_bar_time = time;
  confirmed = true;
  freshness_status = fresh;
  payload = p;
  canonical_payload_sha256 = id;
  raw_payload = id;
}

abbrev rising : CanonicalEvent
rising = event_at 10 "e1" (
    Payload.expansion (record {
      is_scanner = false;
      event = "E5";
      direction = up;
      market_price = some 880;
      correlation = "XAUUSD";
      facts = "";
    }))

abbrev level_event : ℕ → String → Lifecycle → CanonicalEvent
level_event time id lifecycle = event_at time id (
    Payload.liquidity (record {
      level_id = "L1";
      level_version = "v1";
      side = ask;
      level_price = 1000;
      market_price = 900;
      confirmed_5m_atr14 = some 400;
      atr_confirmed = true;
      level_freshness_status = fresh;
      market_price_freshness_status = fresh;
      atr_freshness_status = fresh;
      created_at_source = 5;
      grade = Grade.prime;
      mtf_confluence = 2;
      touch_count = 1;
      lifecycle = lifecycle;
    }))

abbrev or_empty : Result View → View
or_empty (ok v) = v
or_empty (err x) = empty_view

-- The level came before the story in the order of arrival.
abbrev arrived : List CanonicalEvent
arrived = level_event 20 "e2" Lifecycle.approach ∷ rising ∷ []

abbrev arrived_state : NumericState
arrived_state = record { events = arrived; view = or_empty (rebuild floored arrived) }

level_tracked : is_some (tracked_level arrived_state.view) ≡ true
unfolding is_candidate best latest_story chosen_level first_by ranks_before text_lt signed_distance
    zone_of classified measured liquidity_distance get_level put_level price_point add_price
    valid_lifecycle_transition release add_expansion inputs_fresh new_level write_level
    add_liquidity track reselect step_with step fold has_conflict event_before insert_event
    sort_events checked rebuild tracked_level
level_tracked = refl

arrived-IsReplay : IsReplay floored arrived_state
unfolding is_candidate best latest_story chosen_level first_by ranks_before text_lt signed_distance
    zone_of classified measured liquidity_distance get_level put_level price_point add_price
    valid_lifecycle_transition release add_expansion inputs_fresh new_level write_level
    add_liquidity track reselect step_with step fold has_conflict event_before insert_event
    sort_events checked rebuild
arrived-IsReplay = refl

rebuild-IsSound_example : IsSound arrived_state.view
rebuild-IsSound_example = rebuild-IsSound floored arrived arrived_state.view arrived-IsReplay

-- The level was not rejected before it was hit.
abbrev refused : CanonicalEvent
refused = level_event 30 "e3" Lifecycle.reject

abbrev after_refused : NumericState
after_refused = (ingest floored arrived_state refused).0

refused_call :
    ingest floored arrived_state refused ≡ (after_refused, err invalid_lifecycle_transition)
unfolding is_candidate best latest_story chosen_level first_by ranks_before text_lt signed_distance
    zone_of classified measured liquidity_distance get_level put_level price_point add_price
    valid_lifecycle_transition release add_expansion inputs_fresh new_level write_level
    add_liquidity track reselect step_with step fold has_conflict event_before insert_event
    sort_events checked rebuild find_producer roll_back accept ingest
refused_call = refl

ingest_rolls_back_example : after_refused ≡ arrived_state
ingest_rolls_back_example =
    ingest_rolls_back floored arrived_state after_refused refused invalid_lifecycle_transition
      arrived-IsReplay refused_call

abbrev hit_event : CanonicalEvent
hit_event = level_event 30 "e3" Lifecycle.hit

abbrev after_hit : NumericState
after_hit = (ingest floored arrived_state hit_event).0

abbrev hit_result : IngestResult
hit_result = record { accepted = true; duplicate = false; event = hit_event }

hit_call : ingest floored arrived_state hit_event ≡ (after_hit, ok hit_result)
unfolding is_candidate best latest_story chosen_level first_by ranks_before text_lt signed_distance
    zone_of classified measured liquidity_distance get_level put_level price_point add_price
    valid_lifecycle_transition release add_expansion inputs_fresh new_level write_level
    add_liquidity track reselect step_with step fold has_conflict event_before insert_event
    sort_events checked rebuild find_producer roll_back accept ingest
hit_call = refl

ingest-IsReplay_example : IsReplay floored after_hit
ingest-IsReplay_example =
    ingest-IsReplay floored arrived_state after_hit hit_event hit_result arrived-IsReplay hit_call

abbrev as_is : Codec String
as_is = record { b64encode = λ p. p; b64decode = λ l. some l }

-- The parser of three payloads.
abbrev parse : Parser
parse raw =
    if str_eq raw "e1"
    then some rising
    else if str_eq raw "e2"
    then some (level_event 20 "e2" Lifecycle.approach)
    else if str_eq raw "e3"
    then some refused
    else none

abbrev level_state : NumericState
level_state = (ingest floored empty_state (level_event 20 "e2" Lifecycle.approach)).0

level_call : ingest floored empty_state (level_event 20 "e2" Lifecycle.approach) ≡ (
  level_state,
  ok (record {
    accepted = true;
    duplicate = false;
    event = level_event 20 "e2" Lifecycle.approach;
  }),
)
unfolding is_candidate best latest_story chosen_level first_by ranks_before text_lt signed_distance
    zone_of classified measured liquidity_distance get_level put_level price_point add_price
    valid_lifecycle_transition release add_expansion inputs_fresh new_level write_level
    add_liquidity track reselect step_with step fold has_conflict event_before insert_event
    sort_events checked rebuild find_producer roll_back accept ingest
level_call = refl

rising_call :
    ingest floored level_state rising
    ≡ (arrived_state, ok (record { accepted = true; duplicate = false; event = rising }))
unfolding is_candidate best latest_story chosen_level first_by ranks_before text_lt signed_distance
    zone_of classified measured liquidity_distance get_level put_level price_point add_price
    valid_lifecycle_transition release add_expansion inputs_fresh new_level write_level
    add_liquidity track reselect step_with step fold has_conflict event_before insert_event
    sort_events checked rebuild find_producer roll_back accept ingest
rising_call = refl

-- Two events are accepted, and a third is refused.
refused_Ingested : Ingested parse floored after_refused
refused_Ingested =
    Ingested.after
      (Ingested.after (Ingested.after Ingested.fresh refl refl level_call) refl refl rising_call)
      refl refl refused_call

load-save_example :
    load_history as_is parse floored (save_history as_is parse floored after_refused)
    ≡ some (record { events = sort_events after_refused.events; view = after_refused.view })
load-save_example = load-save as_is parse floored after_refused (λ p. refl) refused_Ingested

abbrev near_distance : Option Zone
near_distance = (liquidity_distance floored ask 1000 900 (some 400) true).distance_zone

zone_boundaries_example :
    ((near_distance ≡ some near_touch) ↔ (100 * 4 ≤ 400))
    × ((near_distance ≡ some Zone.approach) ↔ ((400 < 100 * 4) × (100 * 2 ≤ 400)))
    × ((near_distance ≡ some far) ↔ (400 < 100 * 2))
zone_boundaries_example =
    zone_boundaries floored ask 1000 900 400 (λ n s. refl) (ground arith) (ground arith)
      (ground arith)

abbrev in_order : List CanonicalEvent
in_order = rising ∷ level_event 20 "e2" Lifecycle.approach ∷ []

abbrev ordered_state : NumericState
ordered_state = record { events = in_order; view = or_empty (rebuild floored in_order) }

ordered-IsReplay : IsReplay floored ordered_state
unfolding is_candidate best latest_story chosen_level first_by ranks_before text_lt signed_distance
    zone_of classified measured liquidity_distance get_level put_level price_point add_price
    valid_lifecycle_transition release add_expansion inputs_fresh new_level write_level
    add_liquidity track reselect step_with step fold has_conflict event_before insert_event
    sort_events checked rebuild
ordered-IsReplay = refl

arrived-IsOrderable : IsOrderable arrived
unfolding event_before
arrived-IsOrderable = ((refl, tt), (tt, tt))

arrival_order_free_example : arrived_state.view ≡ ordered_state.view
arrival_order_free_example =
    arrival_order_free floored arrived_state ordered_state arrived-IsReplay ordered-IsReplay
      (Permᴰ.swap refl refl) arrived-IsOrderable

-- A later expansion in the other direction.
abbrev falling : CanonicalEvent
falling = event_at 40 "e4" (
    Payload.expansion (record {
      is_scanner = false;
      event = "E5";
      direction = down;
      market_price = some 990;
      correlation = "XAUUSD 40";
      facts = "";
    }))

abbrev turned : List CanonicalEvent
turned = falling ∷ rising ∷ []

abbrev turned_view : View
turned_view = or_empty (rebuild floored turned)

turned-IsReplay : rebuild floored turned ≡ ok turned_view
unfolding is_candidate best latest_story chosen_level first_by ranks_before text_lt signed_distance
    zone_of classified measured liquidity_distance get_level put_level price_point add_price
    valid_lifecycle_transition release add_expansion inputs_fresh new_level write_level
    add_liquidity track reselect step_with step fold has_conflict event_before insert_event
    sort_events checked rebuild
turned-IsReplay = refl

abbrev rise : ExpansionEvent
rise = record {
  event = rising;
  expansion = record {
    is_scanner = false;
    event = "E5";
    direction = up;
    market_price = some 880;
    correlation = "XAUUSD";
    facts = "";
  };
}

rise_found : expansion_before 50 (some up) turned_view ≡ some rise
unfolding is_candidate best latest_story chosen_level first_by ranks_before text_lt signed_distance
    zone_of classified measured liquidity_distance get_level put_level price_point add_price
    valid_lifecycle_transition release add_expansion inputs_fresh new_level write_level
    add_liquidity track reselect step_with step fold has_conflict event_before insert_event
    sort_events checked rebuild is_eligible last_eligible expansion_before
rise_found = refl

expansion_before_latest_example :
    Memᴰ rise turned_view.expansions
    × (is_eligible 50 (some up) rise ≡ true)
    × ((y : ExpansionEvent)
        → Memᴰ y turned_view.expansions
        → is_eligible 50 (some up) y ≡ true
        → y.event.source_bar_time ≤ 10)
expansion_before_latest_example =
    expansion_before_latest floored turned turned_view 50 (some up) rise turned-IsReplay rise_found
