-- ===== src/ProjectA/MakeSense/Compile.antt =====
-- What a compiled request says of its input.
use trading_ai_pipeline.Base.{
  ℕ, ◌≡◌, ◌↔◌, ◌⊎◌, refl, Bool, true, false, ◌||◌, Option, none, some, [], Memᴰ, is_empty, is_some,
  arith, Bool-cases, Option-cases, inl, inr, if◌then◌else◌,
}
use trading_ai_pipeline.Base.Text.{Text}
use trading_ai_pipeline.ProjectA.MakeSense.Latest.{matching_expansion-Mem}
use trading_ai_pipeline.ProjectA.MakeSense.{
  StoryState, CompileError, no_story, compatibility_evidence_only, terminal_source_event,
  critical_evidence_not_fresh, time_required, time_malformed, time_without_zone, absent, malformed,
  naive, b_building, waiting_5s_entry, b_to_a_candidate, ok, err, SourceTime, at, parse_time,
  event_name, Expansion, Liquidity, Freshness, MakeSenseInput, status_of, fresh, not_fresh_of,
  candidate_time, matching_expansion, active_liquidity,
}
use trading_ai_pipeline.ProjectA.MakeSense.Request.{
  ended, MakeSenseRequest, Story, tell, evaluate_story, story, request, compile, core_keys,
}

parse_time-cases :
    (s : SourceTime)
    → ((t : ℕ) × (s ≡ at t) × (parse_time s ≡ ok t)) ⊎ ((e : CompileError) × (parse_time s ≡ err e))
unfolding parse_time
parse_time-cases absent = inr (time_required, refl)
parse_time-cases malformed = inr (time_malformed, refl)
parse_time-cases naive = inr (time_without_zone, refl)
parse_time-cases (at t) = inl (t, refl, refl)

-- What a request that was compiled is made of.
compile_reads :
    (source : MakeSenseInput) (r : MakeSenseRequest)
    → compile source ≡ ok r
    → (name : Text) × (t : ℕ) × (source.event ≡ some name)
      × (is_empty name ≡ false)
      × (source.source_bar_time ≡ at t)
      × (r ≡ request name source (story name source t))
unfolding compile event_name
compile_reads source r h = elim (Option-cases source.event) [
  | inl missing ↦ absurd (ground arith)
  | inr (name, e) ↦ elim (Bool-cases (is_empty name)) [
    | inl blank ↦ absurd (ground arith)
    | inr given ↦ elim (parse_time-cases source.source_bar_time) [
      | inr (bad, p) ↦ absurd (ground arith)
      | inl (t, a, p) ↦ (name, t, e, given, a, ground arith)
    ]
  ]
]

-- A request is compiled exactly when the event has a name and its time can be read: the other
-- fields of the input, whatever they hold, raise no error.
pub compile_succeeds_iff :
    (source : MakeSenseInput)
    → ((r : MakeSenseRequest) × (compile source ≡ ok r)) ↔ (
        (name : Text) × (t : ℕ) × (source.event ≡ some name)
        × (is_empty name ≡ false)
        × (source.source_bar_time ≡ at t))
unfolding compile event_name parse_time
compile_succeeds_iff source = (
  λ (r, h). let (name, t, e, n, a, made) = compile_reads source r h in (name, t, e, n, a),
  λ (name, t, e, n, a). (request name source (story name source t), ground arith),
)

-- What a story that is building rests on.
tell-b_building :
    (event : Text) (source : MakeSenseInput) (active : Bool) (expansion : Option Expansion)
    → (tell event source active expansion).state ≡ b_building
    → (active ≡ true)
      × (is_some expansion ≡ true)
      × (is_empty (not_fresh_of source.freshness core_keys) ≡ true)
      × ((tell event source active expansion).missing ≡ [])
unfolding tell
tell-b_building event source active expansion h =
    (ground arith, ground arith, ground arith, ground arith)

all_fresh :
    (statuses : Freshness)
    → is_empty (not_fresh_of statuses core_keys) ≡ true
    → (status_of statuses "xau" ≡ some fresh)
      × (status_of statuses "atr_5m" ≡ some fresh)
      × (status_of statuses "liquidity" ≡ some fresh)
unfolding not_fresh_of
all_fresh statuses h = (ground arith, ground arith, ground arith)

-- The three tests of `story` before the evidence is evaluated.
chosen : Bool → Bool → Bool → Story → Story
chosen compatibility terminal over s =
    if compatibility
    then ended no_story compatibility_evidence_only
    else if terminal
    then ended StoryState.invalidated terminal_source_event
    else if over
    then ended StoryState.expired critical_evidence_not_fresh
    else s

chosen-b_building :
    (a b c : Bool) (s : Story) → (chosen a b c s).state ≡ b_building → chosen a b c s ≡ s
unfolding chosen
chosen-b_building true b c s h = absurd (ground arith)
chosen-b_building false true c s h = absurd (ground arith)
chosen-b_building false false true s h = absurd (ground arith)
chosen-b_building false false false s h = refl

story-b_building :
    (event : Text) (source : MakeSenseInput) (t : ℕ)
    → (story event source t).state ≡ b_building
    → story event source t ≡ evaluate_story event source t
unfolding story chosen
story-b_building event source t h = chosen-b_building _ _ _ _ h

found_expansion :
    (l : Liquidity) (found : Option (ℕ × Expansion)) (active : Bool) (e : Expansion)
    → active ≡ true
    → (if active then elim found [ none ↦ none | some best ↦ some best.1 ] else none) ≡ some e
    → (t : ℕ) × (found ≡ some (t, e))
found_expansion l none active e a h = absurd (ground arith)
found_expansion l (some best) active e a h = (best.0, ground arith)

evaluate_story-b_building :
    (event : Text) (source : MakeSenseInput) (trigger : ℕ)
    → (evaluate_story event source trigger).state ≡ b_building
    → ((evaluate_story event source trigger).missing ≡ [])
      × (active_liquidity source.liquidity ≡ true)
      × (is_empty (not_fresh_of source.freshness core_keys) ≡ true)
      × ((best : ℕ × Expansion) × Memᴰ best.1 source.expansion_history
          × (candidate_time source.liquidity trigger best.1 ≡ some best.0)
          × ((evaluate_story event source trigger).expansion ≡ some best.1))
unfolding evaluate_story
evaluate_story-b_building event source trigger h =
    let found = matching_expansion source.liquidity trigger source.expansion_history in
    let active = active_liquidity source.liquidity in
    let chosen = if active then elim found [ none ↦ none | some best ↦ some best.1 ] else none in
    let (act, some_, fresh_, none_) = tell-b_building event source active chosen h in
    elim (Option-cases chosen) [
      | inl nothing ↦ absurd (ground arith)
      | inr (e, is) ↦
          let (t, fits) = found_expansion source.liquidity found active e act is in
          let (m, c) =
            matching_expansion-Mem source.liquidity trigger source.expansion_history (t, e) fits in
          (none_, act, fresh_, ((t, e), m, c, unfold tell in is))
    ]

-- A request in the state B_BUILDING has nothing missing: its liquidity level is active, the 5m ATR,
-- the price and the liquidity are FRESH, and an expansion of the history, confirmed, towards the
-- level, of its symbol and feed and not after the trigger, is the one that the request names.
pub b_building_complete :
    (source : MakeSenseInput) (r : MakeSenseRequest)
    → compile source ≡ ok r
    → r.state ≡ b_building
    → (r.missing_evidence ≡ [])
      × (active_liquidity source.liquidity ≡ true)
      × (status_of source.freshness "xau" ≡ some fresh)
      × (status_of source.freshness "atr_5m" ≡ some fresh)
      × (status_of source.freshness "liquidity" ≡ some fresh)
      × ((trigger : ℕ) × (best : ℕ × Expansion) × (source.source_bar_time ≡ at trigger)
          × Memᴰ best.1 source.expansion_history
          × (candidate_time source.liquidity trigger best.1 ≡ some best.0)
          × (r.selected_expansion_event_id ≡ best.1.event_id))
b_building_complete source r h b =
    let (name, trigger, e, n, a, made) = compile_reads source r h in
    let telling : story name source trigger ≡ evaluate_story name source trigger =
      story-b_building name source trigger (ground arith) in
    let (none_, act, fresh_, (best, m, c, is)) =
      evaluate_story-b_building name source trigger (ground arith) in
    let (xau, atr, liquidity) = all_fresh source.freshness fresh_ in
    (ground arith, act, xau, atr, liquidity, (trigger, best, a, m, c, ground arith))

-- The states that stand before an entry.
abbrev pub is_before_entry : StoryState → Bool
is_before_entry b_to_a_candidate = true
is_before_entry waiting_5s_entry = true
is_before_entry _ = false

tell-state :
    (event : Text) (source : MakeSenseInput) (active : Bool) (expansion : Option Expansion)
    → is_before_entry (tell event source active expansion).state ≡ false
unfolding tell
tell-state event source active expansion = ground arith

chosen-state :
    (a b c : Bool) (s : Story)
    → is_before_entry s.state ≡ false
    → is_before_entry (chosen a b c s).state ≡ false
unfolding chosen
chosen-state true b c s h = refl
chosen-state false true c s h = refl
chosen-state false false true s h = refl
chosen-state false false false s h = h

story-state :
    (event : Text) (source : MakeSenseInput) (t : ℕ)
    → is_before_entry (story event source t).state ≡ false
unfolding story evaluate_story chosen
story-state event source t = chosen-state _ _ _ _ (tell-state event source _ _)

-- No input compiles to a request that dispatches to a provider, uses the network, writes or trades,
-- or that asks for a full capture or a prewarm, nor to one of the states that stand before an
-- entry, B_TO_A_CANDIDATE and WAITING_5S_ENTRY.
pub compile_never_acts :
    (source : MakeSenseInput) (r : MakeSenseRequest)
    → compile source ≡ ok r
    → (r.provider_dispatch_enabled
          || (r.network_enabled || (r.writer_enabled || (r.broker_enabled || r.order_placed)))
        ≡ false)
      × (r.full_capture_requested || r.prewarm_requested ≡ false)
      × (is_before_entry r.state ≡ false)
compile_never_acts source r h =
    let (name, t, e, n, a, made) = compile_reads source r h in
    (rw made refl, rw made refl, rw made (story-state name source t))
