-- ===== src/ProjectA/Numeric/Fold.antt =====
-- `_rebuild` of NumericMarketState: the fold over the events in the order of their time and id.
use trading_ai_pipeline.Base.{
  ℕ, ◌*◌, String, Bool, true, false, not, ◌&&◌, ◌||◌, ltb, ◌==◌, Option, none, some, List, [], ◌∷◌,
  any, str_eq, if◌then◌else◌,
}
use trading_ai_pipeline.Base.Int.{ℤ, pos, negsuc, negate, abs}
use trading_ai_pipeline.Base.Text.{codes}
use trading_ai_pipeline.Output.Stamp.{text_lt}
use trading_ai_pipeline.ProjectA.Numeric.Events.{
  Direction, up, down, flat, Lifecycle, Stage, CanonicalEvent, Payload, LiquidityData,
  ExpansionData, RenkoData, LiquidityLevel, PricePoint, Decimals,
}
use trading_ai_pipeline.ProjectA.Numeric.Distance.{difference, liquidity_distance}
use trading_ai_pipeline.ProjectA.Numeric.View.{
  Tracked, Release, direction_story_reset, level_reached, released, selected, ExpansionEvent, View,
  empty_view, Result, ok, err, invalid_lifecycle_transition, scanner_evidence_conflict, get_level,
  put_level,
}
use trading_ai_pipeline.ProjectA.Numeric.Select.{
  is_fresh, is_active, is_story, selection_audit_tuple, chosen_level,
}

abbrev pub movement : ℤ → Direction
movement (pos n) = if n == 0 then flat else up
movement (negsuc n) = down

-- _divide_decimal(delta * 100, previous), which keeps the sign.
abbrev pub percent : Decimals → ℤ → ℕ → ℤ
percent d (pos n) previous = pos (d.divide (d.round (n * 100)) previous)
percent d (negsuc n) previous = negate (pos (d.divide (d.round (abs (negsuc n) * 100)) previous))

unfoldable pub price_point : Decimals → CanonicalEvent → ℕ → List PricePoint → PricePoint
price_point d e price [] = record {
  event_id = e.canonical_event_id;
  source_bar_time = e.source_bar_time;
  market_price = price;
  delta = none;
  delta_pct = none;
  movement_direction = none;
}
price_point d e price (p ∷ _) = record {
  event_id = e.canonical_event_id;
  source_bar_time = e.source_bar_time;
  market_price = price;
  delta = some (difference d price p.market_price);
  delta_pct = some (percent d (difference d price p.market_price) p.market_price);
  movement_direction = some (movement (difference d price p.market_price));
}

unfoldable pub add_price : Decimals → CanonicalEvent → Option ℕ → View → View
add_price d e none v = v
add_price d e (some price) v = record v {
  price_path = price_point d e price v.price_path ∷ v.price_path;
}

abbrev pub same_lifecycle : Lifecycle → Lifecycle → Bool
same_lifecycle Lifecycle.idle Lifecycle.idle = true
same_lifecycle Lifecycle.approach Lifecycle.approach = true
same_lifecycle Lifecycle.hit Lifecycle.hit = true
same_lifecycle Lifecycle.reject Lifecycle.reject = true
same_lifecycle Lifecycle.break Lifecycle.break = true
same_lifecycle Lifecycle.invalidated Lifecycle.invalidated = true
same_lifecycle Lifecycle.expired Lifecycle.expired = true
same_lifecycle Lifecycle.removed Lifecycle.removed = true
same_lifecycle Lifecycle.stale Lifecycle.stale = true
same_lifecycle Lifecycle.source_unavailable Lifecycle.source_unavailable = true
same_lifecycle _ _ = false

-- The table `allowed`.
abbrev pub allowed : Lifecycle → Lifecycle → Bool
allowed Lifecycle.idle Lifecycle.approach = true
allowed Lifecycle.idle Lifecycle.hit = true
allowed Lifecycle.idle Lifecycle.break = true
allowed Lifecycle.idle Lifecycle.invalidated = true
allowed Lifecycle.approach Lifecycle.hit = true
allowed Lifecycle.approach Lifecycle.break = true
allowed Lifecycle.approach Lifecycle.invalidated = true
allowed Lifecycle.hit Lifecycle.reject = true
allowed Lifecycle.hit Lifecycle.break = true
allowed Lifecycle.hit Lifecycle.invalidated = true
allowed _ _ = false

unfoldable pub valid_lifecycle_transition : Lifecycle → Lifecycle → Bool
valid_lifecycle_transition previous current =
    same_lifecycle previous current || allowed previous current

-- _TERMINAL_LIFECYCLES
abbrev pub is_terminal : Lifecycle → Bool
is_terminal l = not (is_active l)

unfoldable pub release : Release → CanonicalEvent → View → View
release reason e v = elim v.tracked [
  | none ↦ v
  | some t ↦ record v {
    tracked = none;
    tracked_history =
        released t.level_id t.level_version reason e.canonical_event_id e.source_bar_time
        ∷ v.tracked_history;
  }
]

abbrev pub same_direction : Direction → Direction → Bool
same_direction up up = true
same_direction down down = true
same_direction flat flat = true
same_direction _ _ = false

abbrev pub turns : Option Direction → Direction → Bool
turns none d = false
turns (some p) d = not (same_direction d p)

unfoldable pub add_expansion : CanonicalEvent → ExpansionData → View → View
add_expansion e x v =
    let item : ExpansionEvent = record { event = e; expansion = x } in
    let v' = record v { expansions = item ∷ v.expansions } in
    let reset =
      if turns v'.prior_expansion_direction x.direction
      then release direction_story_reset e v'
      else v' in
    if is_story item then record reset { prior_expansion_direction = some x.direction } else v'

unfoldable pub inputs_fresh : CanonicalEvent → LiquidityData → Bool
inputs_fresh e l =
    e.confirmed
    && is_fresh l.level_freshness_status
    && is_fresh l.market_price_freshness_status
    && is_fresh l.atr_freshness_status
    && l.atr_confirmed

unfoldable pub new_level : Decimals → CanonicalEvent → LiquidityData → LiquidityLevel
new_level d e l = record {
  level_id = l.level_id;
  level_version = l.level_version;
  side = l.side;
  level_price = l.level_price;
  created_at_source = l.created_at_source;
  grade = l.grade;
  mtf_confluence = l.mtf_confluence;
  touch_count = l.touch_count;
  lifecycle = l.lifecycle;
  confirmed = e.confirmed;
  freshness_status = l.level_freshness_status;
  last_event_id = e.canonical_event_id;
  last_observed_at = e.source_bar_time;
  distance =
      liquidity_distance d l.side l.level_price l.market_price l.confirmed_5m_atr14
        (inputs_fresh e l);
}

abbrev pub tracks : Option Tracked → LiquidityData → Bool
tracks none l = false
tracks (some t) l = str_eq t.level_id l.level_id && str_eq t.level_version l.level_version

abbrev pub transition_allowed : Option LiquidityLevel → Lifecycle → Bool
transition_allowed none l = true
transition_allowed (some p) l = valid_lifecycle_transition p.lifecycle l

unfoldable pub write_level : Decimals → CanonicalEvent → LiquidityData → View → View
write_level d e l v =
    let v' = record v {
      liquidity_events = e ∷ v.liquidity_events;
      levels = put_level (new_level d e l) v.levels;
    } in
    if tracks v.tracked l && is_terminal l.lifecycle
    then release (level_reached l.lifecycle) e v'
    else v'

unfoldable pub add_liquidity : Decimals → CanonicalEvent → LiquidityData → View → Result View
add_liquidity d e l v =
    if transition_allowed (get_level l.level_id l.level_version v.levels) l.lifecycle
    then ok (write_level d e l v)
    else err invalid_lifecycle_transition

abbrev pub stage_rank : Stage → ℕ
stage_rank Stage.e1 = 1
stage_rank Stage.e2 = 2
stage_rank Stage.main = 3
stage_rank Stage.fire = 4
stage_rank _ = 0

abbrev pub clears : Stage → Bool
clears Stage.reset = true
clears Stage.invalidated = true
clears _ = false

abbrev pub add_stage : Stage → List Stage → List Stage
add_stage s stages = if any (λ t. stage_rank t == stage_rank s) stages then stages else s ∷ stages

abbrev pub new_cycle : Option String → Option String → Bool
new_cycle (some c) (some k) = not (str_eq c k)
new_cycle _ _ = false

abbrev pub or_previous : Option String → Option String → Option String
or_previous none previous = previous
or_previous (some c) previous = some c

unfoldable pub add_renko : CanonicalEvent → RenkoData → View → View
add_renko e r v =
    let kept = if new_cycle r.cycle_id v.renko_cycle then [] else v.renko_stages in
    record v {
      renko_events = record { event = e; renko = r } ∷ v.renko_events;
      renko_cycle = or_previous r.cycle_id v.renko_cycle;
      renko_stages =
          if clears r.stage
          then []
          else if e.confirmed && is_fresh e.freshness_status
          then add_stage r.stage kept
          else kept;
    }

abbrev pub tracked_of : CanonicalEvent → LiquidityLevel → Tracked
tracked_of e l = record {
  level_id = l.level_id;
  level_version = l.level_version;
  selection = selection_audit_tuple l;
  selected_at = e.source_bar_time;
}

unfoldable pub track : CanonicalEvent → LiquidityLevel → View → View
track e l v = record v {
  tracked = some (tracked_of e l);
  tracked_history =
      selected (tracked_of e l) e.canonical_event_id e.source_bar_time ∷ v.tracked_history;
}

unfoldable pub reselect : CanonicalEvent → View → View
reselect e v = elim v.tracked [
  | some t ↦ v
  | none ↦ elim (chosen_level v) [ none ↦ v | some l ↦ track e l v ]
]

-- One round of the loop. A scanner's event ends it before the selection.
unfoldable pub step_with : Decimals → CanonicalEvent → Payload → View → Result View
step_with d e (Payload.expansion x) v =
    let v' = add_price d e x.market_price v in
    if x.is_scanner
    then ok (record v' { scanners = record { event = e; expansion = x } ∷ v'.scanners })
    else ok (reselect e (add_expansion e x v'))
step_with d e (Payload.liquidity l) v =
    elim (add_liquidity d e l (add_price d e (some l.market_price) v)) [
      | ok v' ↦ ok (reselect e v')
      | err x ↦ err x
    ]
step_with d e (Payload.renko r) v = ok (reselect e (add_renko e r v))

unfoldable pub step : Decimals → CanonicalEvent → View → Result View
step d e v = step_with d e e.payload v

unfoldable pub fold : Decimals → List CanonicalEvent → View → Result View
fold d [] v = ok v
fold d (e ∷ es) v = elim (step d e v) [ ok v' ↦ fold d es v' | err x ↦ err x ]

-- Two scanner events of one correlation key and name with different facts. The dictionary holds the
-- facts of the last one, which are those of all before it.
abbrev pub conflicting : ExpansionEvent → ExpansionEvent → Bool
conflicting a b =
    str_eq a.expansion.correlation b.expansion.correlation
    && same_direction a.expansion.direction b.expansion.direction
    && str_eq a.expansion.event b.expansion.event
    && not (str_eq a.expansion.facts b.expansion.facts)

unfoldable pub has_conflict : List ExpansionEvent → Bool
has_conflict [] = false
has_conflict (x ∷ xs) = any (conflicting x) xs || has_conflict xs

-- (_time_key(item.source_bar_time), item.canonical_event_id)
unfoldable pub event_before : CanonicalEvent → CanonicalEvent → Bool
event_before a b =
    if a.source_bar_time == b.source_bar_time
    then text_lt (codes a.canonical_event_id) (codes b.canonical_event_id)
    else ltb a.source_bar_time b.source_bar_time

unfoldable pub insert_event : CanonicalEvent → List CanonicalEvent → List CanonicalEvent
insert_event e [] = e ∷ []
insert_event e (k ∷ ks) =
    let rest = insert_event e ks in if event_before k e then k ∷ rest else e ∷ (k ∷ ks)

unfoldable pub sort_events : List CanonicalEvent → List CanonicalEvent
sort_events [] = []
sort_events (e ∷ es) = insert_event e (sort_events es)

unfoldable pub checked : View → Result View
checked v = if has_conflict v.scanners then err scanner_evidence_conflict else ok v

unfoldable pub rebuild : Decimals → List CanonicalEvent → Result View
rebuild d events = elim (fold d (sort_events events) empty_view) [
  | ok v ↦ checked v
  | err x ↦ err x
]
