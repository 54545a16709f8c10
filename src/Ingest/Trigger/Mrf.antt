-- ===== src/Ingest/Trigger/Mrf.antt =====
-- The rule of the mean-reversion fade (MRF) of ingest/trigger.py.
pub mod Pairs
use trading_ai_pipeline.Base.{
  ℕ, String, Bool, true, false, ◌&&◌, ◌||◌, not, Option, none, some, List, [], ◌∷◌, any, or_else,
  if◌then◌else◌,
}
use trading_ai_pipeline.Base.Text.{Text}
use trading_ai_pipeline.Ingest.Trigger.{
  Raw, AlertEvent, Row, u, says, is_given, within, mrf_window_min, mrf_cooldown_min, mrf_veto_min,
}

pub data Fade : Type 0 where
  long short : Fade

abbrev pub same_fade : Fade → Fade → Bool
same_fade long long = true
same_fade short short = true
same_fade _ _ = false

-- `x == fade`, for an x that may be None.
abbrev pub is_fade : Option Fade → Fade → Bool
is_fade none fade = false
is_fade (some f) fade = same_fade f fade

-- _fade_dir
unfoldable pub fade_dir : Option Text → Option Text → Option Text → Raw → Option Fade
fade_dir engine event dir raw =
    if raw.telemetry_only
    then none
    else if says engine "EXP"
    then if says event "EXP_UP"
      then some short
      else if says event "EXP_DOWN"
      then some long
      else none
    else if says engine "LIQ" && (says event "TOUCH" || says event "SWEEP")
    then if says raw.side "ASK" then some short else if says raw.side "BID" then some long else none
    else if says engine "MACD" && (says event "FLOW_FLIP" || says event "WEAKEN")
    then if says dir "LONG" then some long else if says dir "SHORT" then some short else none
    else none

-- _fade_dir_row
abbrev pub fade_dir_row : Row → Option Fade
fade_dir_row r = fade_dir r.engine r.event r.dir r.raw

-- The test of one row in `_any_fade`, and `_any_fade`.
abbrev pub fades : String → Fade → Row → Bool
fades engine fade r = says r.engine engine && is_fade (fade_dir_row r) fade

unfoldable pub any_fade : List Row → String → Fade → Bool
any_fade win engine fade = any (fades engine fade) win

-- _too_long_veto_dir
unfoldable pub too_long_veto_dir : Option Text → Option Fade
too_long_veto_dir move_dir =
    if says move_dir "LONG" then some short else if says move_dir "SHORT" then some long else none

-- The first of two texts that is not empty (`a or b`).
abbrev pub first_given : Option Text → Option Text → Option Text
first_given a b = if is_given a then a else b

abbrev pub vetoes : Fade → Row → Bool
vetoes fade r =
    says r.engine "EXP"
    && (says r.event "TOO_LONG" && elim (too_long_veto_dir (first_given r.raw.dir r.dir)) [
      | none ↦ true
      | some vd ↦ same_fade vd fade
    ])

-- _mrf_vetoed
unfoldable pub mrf_vetoed : ℕ → Fade → List Row → Bool
mrf_vetoed now fade recent = any (vetoes fade) (within now recent mrf_veto_min)

-- _mrf_in_cooldown
unfoldable pub mrf_in_cooldown : ℕ → Fade → List Row → Bool
mrf_in_cooldown now fade recent =
    let wake_win = within now recent mrf_window_min in
    let cd = within now recent mrf_cooldown_min in
    if not (any_fade wake_win "EXP" fade && any_fade wake_win "LIQ" fade)
    then false
    else any_fade cd "EXP" fade || any_fade cd "LIQ" fade

-- _fade_pick, with the key as a column of `raw` and of the row.
unfoldable pub fade_pick :
    List Row → String → Fade → (Raw → Option Text) → (Row → Option Text) → Option Text
fade_pick [] engine fade raw_key key = none
fade_pick (r ∷ win) engine fade raw_key key =
    let rest = fade_pick win engine fade raw_key key in
    if fades engine fade r then or_else (or_else (raw_key r.raw) (key r)) rest else rest

-- The label of `_macd_confirm`: the event, and its time frame where it has one.
unfoldable pub macd_confirm : List Row → Fade → Option (Text × Option Text)
macd_confirm [] fade = none
macd_confirm (r ∷ win) fade =
    let rest = macd_confirm win fade in
    if says r.engine "MACD"
      && ((says r.event "FLOW_FLIP" || says r.event "WEAKEN") && is_fade (fade_dir_row r) fade)
    then some (u r.event, first_given r.tf r.raw.tf)
    else rest

-- The reasons of the decisions, and what they quote.
pub data MrfReason : Type 0 where
  wma5s macd_only no_fade : MrfReason
  too_long : Option Fade → MrfReason
  unpaired : Fade → Bool → Bool → MrfReason
  vetoed in_cooldown : Fade → MrfReason
  pair : Fade → Option Text → Option Text → Option (Text × Option Text) → MrfReason

pub record MrfDecision : Type 0 where
  pub wake : Bool
  pub reason : MrfReason

abbrev pub stays : MrfReason → MrfDecision
stays reason = record { wake = false; reason = reason }

-- _mrf_evidence: the grade of the EXP alert, and the level of the LIQ alert.
unfoldable pub mrf_evidence : AlertEvent → List Row → Fade → Option Text × Option Text
mrf_evidence event win fade = (
  if says event.engine "EXP" then event.grade else fade_pick win "EXP" fade Raw.grade Row.grade,
  if says event.engine "LIQ"
      then event.raw.level
      else fade_pick win "LIQ" fade Raw.level (λ r. none),
)

-- The part of `_mrf_decision` for an alert with a fade direction.
unfoldable pub mrf_fade_decision : ℕ → AlertEvent → List Row → Fade → MrfDecision
mrf_fade_decision now event recent fade =
    let win = within now recent mrf_window_min in
    let has_exp = says event.engine "EXP" || any_fade win "EXP" fade in
    let has_liq = says event.engine "LIQ" || any_fade win "LIQ" fade in
    let (grade, level) = mrf_evidence event win fade in
    if not (has_exp && has_liq)
    then stays (unpaired fade has_exp has_liq)
    else if mrf_vetoed now fade recent
    then stays (vetoed fade)
    else if mrf_in_cooldown now fade recent
    then stays (in_cooldown fade)
    else record { wake = true; reason = pair fade grade level (macd_confirm win fade) }

-- _mrf_decision; none where the engine is not one of MRF_ENGINES.
unfoldable pub mrf_decision : ℕ → AlertEvent → List Row → Option MrfDecision
mrf_decision now event recent =
    if not (
      says event.engine "EXP"
      || (says event.engine "LIQ" || (says event.engine "MACD" || says event.engine "WMA5S")))
    then none
    else if says event.engine "WMA5S"
    then some (stays wma5s)
    else if says event.engine "EXP" && says event.event "TOO_LONG"
    then some (stays (too_long (too_long_veto_dir event.dir)))
    else if says event.engine "MACD"
    then some (stays macd_only)
    else elim (fade_dir event.engine event.event event.dir event.raw) [
      | none ↦ some (stays no_fade)
      | some fade ↦ some (mrf_fade_decision now event recent fade)
    ]
