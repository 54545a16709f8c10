-- ===== src/ProjectA/MakeSense.antt =====
-- project_a/make_sense.py: the compiler of a make-sense request. A JSON object is the record of the
-- keys that the compiler reads; a value that it only compares with constants is one of these or
-- `other`, which a missing key is too. The facts, which are copied from the input, and the digest
-- are left out.
pub mod Latest
pub mod Request
pub mod Compile
use trading_ai_pipeline.Base.{
  ℕ, ◌+◌, ◌*◌, ◌≡◌, String, Bool, true, false, ◌&&◌, ◌||◌, not, Option, none, some, List, [], ◌∷◌,
  ◌++◌, any, leb, ltb, ◌==◌, str_eq, is_empty, is_some, if◌then◌else◌,
}
use trading_ai_pipeline.Base.Text.{Text, codes, text_eq}
use trading_ai_pipeline.Output.Stamp.{text_lt}

pub data StoryState : Type 0 where
  no_story c_insufficient b_building b_to_a_candidate a_review_required : StoryState
  waiting_5s_entry invalidated expired : StoryState

pub data CompileError : Type 0 where
  event_required time_required time_malformed time_without_zone : CompileError

pub data Outcome {ℓ} (A : Type ℓ) : Type ℓ where
  ok : A → Outcome A
  err : CompileError → Outcome A

-- A value under `source_bar_time`, read as ISO-8601: none or no text, malformed, without a time
-- zone, or a time in microseconds.
pub data SourceTime : Type 0 where
  absent malformed naive : SourceTime
  at : ℕ → SourceTime

-- _parse_time
unfoldable pub parse_time : SourceTime → Outcome ℕ
parse_time absent = err time_required
parse_time malformed = err time_malformed
parse_time naive = err time_without_zone
parse_time (at t) = ok t

-- _event_name; a value that is no text is none.
unfoldable pub event_name : Option Text → Outcome Text
event_name none = err event_required
event_name (some name) = if is_empty name then err event_required else ok name

pub data Side : Type 0 where
  ask bid other : Side

pub data Direction : Type 0 where
  up down other : Direction

pub data Lifecycle : Type 0 where
  break_ invalidated expired removed stale source_unavailable other : Lifecycle

pub data Status : Type 0 where
  fresh stale missing clock_invalid source_unavailable market_closed other : Status

-- TERMINAL_LIQUIDITY
abbrev pub is_terminal : Lifecycle → Bool
is_terminal other = false
is_terminal _ = true

-- HARD_FRESHNESS_FAILURES
abbrev pub is_hard_failure : Status → Bool
is_hard_failure fresh = false
is_hard_failure other = false
is_hard_failure _ = true

pub record Liquidity : Type 0 where
  pub level_id : Option Text
  pub side : Side
  pub lifecycle : Lifecycle
  pub confirmed : Bool
  pub symbol : Option Text
  pub feed : Option Text

pub record Expansion : Type 0 where
  pub direction : Direction
  pub confirmed : Bool
  pub symbol : Option Text
  pub feed : Option Text
  pub source_bar_time : SourceTime
  pub event_id : Option Text

abbrev pub Freshness : Type 0
Freshness = List (String × Status)

-- final_review: its verdict is APPROVE or MODIFY, and its grade is A.
pub record FinalReview : Type 0 where
  pub approved : Bool
  pub grade_a : Bool

-- `prior_state` is none for a text that names no state.
pub record MakeSenseInput : Type 0 where
  pub event : Option Text
  pub source_bar_time : SourceTime
  pub liquidity : Liquidity
  pub expansion_history : List Expansion
  pub freshness : Freshness
  pub evidence_references : List Text
  pub prior_state : Option StoryState
  pub final_review : FinalReview

pub data Hypothesis : Type 0 where
  possible_bearish_reversal possible_bullish_reversal : Hypothesis

pub data Reason : Type 0 where
  compatibility_evidence_only terminal_source_event critical_evidence_not_fresh : Reason
  liq_touch_research_started final_review_recorded_no_execution story_evaluated : Reason

pub data Missing : Type 0 where
  active_confirmed_liquidity prior_confirmed_expansion_toward_level : Missing
  not_fresh : String → Option Status → Missing

-- `statuses.get(key)`
unfoldable pub status_of : Freshness → String → Option Status
status_of [] key = none
status_of ((k, s) ∷ rest) key = if str_eq k key then some s else status_of rest key

abbrev pub is_fresh : Option Status → Bool
is_fresh (some fresh) = true
is_fresh _ = false

-- _fresh: the statuses that are not FRESH.
unfoldable pub not_fresh_of : Freshness → List String → List Missing
not_fresh_of statuses [] = []
not_fresh_of statuses (key ∷ keys) =
    let rest = not_fresh_of statuses keys in
    let status = status_of statuses key in
    if is_fresh status then rest else not_fresh key status ∷ rest

-- _hard_freshness_failure
unfoldable pub hard_freshness_failure : Freshness → Bool
hard_freshness_failure statuses = any (λ s. is_hard_failure s.1) statuses

-- `item.get("direction") == _expected_expansion(side)`, for a side that is ASK or BID.
abbrev pub is_expected : Side → Direction → Bool
is_expected ask up = true
is_expected bid down = true
is_expected _ _ = false

-- _hypothesis
abbrev pub hypothesis : Side → Direction → List Hypothesis
hypothesis ask up = possible_bearish_reversal ∷ []
hypothesis bid down = possible_bullish_reversal ∷ []
hypothesis _ _ = []

abbrev pub same_text : Option Text → Option Text → Bool
same_text none none = true
same_text (some x) (some y) = text_eq x y
same_text _ _ = false

-- The tests of one item in `_matching_expansion`: the time of a candidate, or none.
unfoldable pub candidate_time : Liquidity → ℕ → Expansion → Option ℕ
candidate_time liquidity trigger_time item =
    if not (is_expected liquidity.side item.direction && item.confirmed)
      || not (same_text item.symbol liquidity.symbol && same_text item.feed liquidity.feed)
    then none
    else elim (parse_time item.source_bar_time) [
      | err e ↦ none
      | ok t ↦ if leb t trigger_time then some t else none
    ]

-- `item.get("event_id", "")`
abbrev pub id_text : Expansion → Text
id_text item = elim item.event_id [ none ↦ [] | some id ↦ id ]

-- (time, id) before another, in the order of tuples.
abbrev pub key_lt : ℕ × Expansion → ℕ × Expansion → Bool
key_lt a b = if a.0 == b.0 then text_lt (id_text a.1) (id_text b.1) else ltb a.0 b.0

-- _matching_expansion: the last candidate after the stable sort, which is the greatest, and among
-- equals the last in the history.
unfoldable pub matching_expansion : Liquidity → ℕ → List Expansion → Option (ℕ × Expansion)
matching_expansion liquidity trigger_time [] = none
matching_expansion liquidity trigger_time (item ∷ history) =
    let rest = matching_expansion liquidity trigger_time history in
    elim (candidate_time liquidity trigger_time item) [
      | none ↦ rest
      | some t ↦ elim rest [
        | none ↦ some (t, item)
        | some best ↦ if key_lt best (t, item) then some (t, item) else some best
      ]
    ]

-- _active_liquidity
unfoldable pub active_liquidity : Liquidity → Bool
active_liquidity l =
    (elim l.level_id [ none ↦ false | some id ↦ not (is_empty id) ]
      && elim l.side [ other ↦ false | _ ↦ true ])
    && (not (is_terminal l.lifecycle) && l.confirmed)
