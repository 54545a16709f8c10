-- ===== src/ProjectA/MakeSense/Request.antt =====
-- `MakeSenseCompiler.compile` of project_a/make_sense.py, branch by branch.
use trading_ai_pipeline.Base.{
  ℕ, String, Bool, true, false, ◌&&◌, ◌||◌, Option, none, some, List, [], ◌∷◌, ◌++◌, ◌==◌, is_empty,
  is_some, if◌then◌else◌,
}
use trading_ai_pipeline.Base.Text.{Text, codes, text_eq}
use trading_ai_pipeline.ProjectA.MakeSense.{
  StoryState, Outcome, parse_time, event_name, Lifecycle, Expansion, MakeSenseInput, Hypothesis,
  Reason, Missing, not_fresh_of, hard_freshness_failure, hypothesis, matching_expansion,
  active_liquidity, no_story, c_insufficient, b_building, a_review_required, ok, err,
  compatibility_evidence_only, terminal_source_event, critical_evidence_not_fresh,
  liq_touch_research_started, final_review_recorded_no_execution, story_evaluated,
  active_confirmed_liquidity, prior_confirmed_expansion_toward_level,
}

abbrev pub starts_with : Text → Text → Bool
starts_with [] t = true
starts_with (p ∷ ps) [] = false
starts_with (p ∷ ps) (c ∷ cs) = (p == c) && starts_with ps cs

pub record MakeSenseRequest : Type 0 where
  pub state : StoryState
  pub trigger_event : Text
  pub research_started : Bool
  pub numeric_snapshot_requested : Bool
  pub full_capture_requested : Bool
  pub prewarm_requested : Bool
  pub hypotheses : List Hypothesis
  pub reasons : List Reason
  pub missing_evidence : List Missing
  pub selected_expansion_event_id : Option Text
  pub evidence_references : List Text
  pub provider_dispatch_enabled : Bool
  pub network_enabled : Bool
  pub writer_enabled : Bool
  pub broker_enabled : Bool
  pub order_placed : Bool

-- What the branches of `compile` decide.
pub record Story : Type 0 where
  pub state : StoryState
  pub reason : Reason
  pub hypotheses : List Hypothesis
  pub missing : List Missing
  pub expansion : Option Expansion

abbrev pub ended : StoryState → Reason → Story
ended state reason = record {
  state = state;
  reason = reason;
  hypotheses = [];
  missing = [];
  expansion = none;
}

abbrev pub core_keys : List String
core_keys = "xau" ∷ "atr_5m" ∷ "liquidity" ∷ []

-- The last branch of `compile`, for the expansion that was found; the entries of `missing` differ
-- from each other, so that `dict.fromkeys` keeps them all.
unfoldable pub tell : Text → MakeSenseInput → Bool → Option Expansion → Story
tell event source active expansion =
    let stale = not_fresh_of source.freshness core_keys in
    let ready = active && (is_some expansion && is_empty stale) in
    let built = if ready then b_building else c_insufficient in
    let reviewed = source.final_review.approved && source.final_review.grade_a in
    let touched = text_eq event (codes "LIQ_TOUCH") in
    record {
      state = if touched then built else if reviewed then a_review_required else built;
      reason =
          if touched
          then liq_touch_research_started
          else if reviewed
          then final_review_recorded_no_execution
          else story_evaluated;
      hypotheses = elim expansion [
        | none ↦ []
        | some e ↦ hypothesis source.liquidity.side e.direction
      ];
      missing =
          (if active then [] else active_confirmed_liquidity ∷ [])
          ++ (elim expansion [ none ↦ prior_confirmed_expansion_toward_level ∷ [] | some e ↦ [] ]
              ++ stale);
      expansion = expansion;
    }

unfoldable pub evaluate_story : Text → MakeSenseInput → ℕ → Story
evaluate_story event source trigger_time =
    let active = active_liquidity source.liquidity in
    let found = matching_expansion source.liquidity trigger_time source.expansion_history in
    tell event source active
      (if active then elim found [ none ↦ none | some best ↦ some best.1 ] else none)

abbrev pub is_removed : Lifecycle → Bool
is_removed Lifecycle.break_ = true
is_removed Lifecycle.invalidated = true
is_removed Lifecycle.removed = true
is_removed _ = false

abbrev pub has_story : Option StoryState → Bool
has_story (some no_story) = false
has_story (some c_insufficient) = false
has_story _ = true

unfoldable pub story : Text → MakeSenseInput → ℕ → Story
story event source trigger_time =
    if starts_with (codes "EXP_") event || starts_with (codes "RENKO_") event
    then ended no_story compatibility_evidence_only
    else if (text_eq event (codes "LIQ_BREAK") || text_eq event (codes "LIQ_INVALIDATED"))
        || is_removed source.liquidity.lifecycle
    then ended StoryState.invalidated terminal_source_event
    else if text_eq event (codes "SETUP_EXPIRED")
        || (has_story source.prior_state && hard_freshness_failure source.freshness)
    then ended StoryState.expired critical_evidence_not_fresh
    else evaluate_story event source trigger_time

abbrev pub request : Text → MakeSenseInput → Story → MakeSenseRequest
request event source s = record {
  state = s.state;
  trigger_event = event;
  research_started = text_eq event (codes "LIQ_TOUCH");
  numeric_snapshot_requested = text_eq event (codes "LIQ_TOUCH");
  full_capture_requested = false;
  prewarm_requested = false;
  hypotheses = s.hypotheses;
  reasons = s.reason ∷ [];
  missing_evidence = s.missing;
  selected_expansion_event_id = elim s.expansion [ none ↦ none | some e ↦ e.event_id ];
  evidence_references = source.evidence_references;
  provider_dispatch_enabled = false;
  network_enabled = false;
  writer_enabled = false;
  broker_enabled = false;
  order_placed = false;
}

-- MakeSenseCompiler.compile
unfoldable pub compile : MakeSenseInput → Outcome MakeSenseRequest
compile source = elim (event_name source.event) [
  | err e ↦ err e
  | ok event ↦ elim (parse_time source.source_bar_time) [
    | err e ↦ err e
    | ok trigger_time ↦ ok (request event source (story event source trigger_time))
  ]
]
