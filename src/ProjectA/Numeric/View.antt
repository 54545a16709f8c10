-- ===== src/ProjectA/Numeric/View.antt =====
-- What `_rebuild` computes. Histories have their newest entry first; the levels stand in the order of
-- the dictionary, which keeps the place of a key that is written again.
use trading_ai_pipeline.Base.{
  ℕ, String, Bool, ◌&&◌, Option, none, List, [], ◌∷◌, str_eq, if◌then◌else◌,
}
use trading_ai_pipeline.ProjectA.Numeric.Events.{
  Direction, Lifecycle, Grade, Stage, Zone, CanonicalEvent, ExpansionData, RenkoData,
  LiquidityLevel, PricePoint,
}

-- _selection_audit_tuple
pub record Selection : Type 0 where
  pub distance_zone : Option Zone
  pub grade : Grade
  pub mtf_confluence : ℕ
  pub distance_atr : Option ℕ
  pub touch_count : ℕ
  pub created_at_source : ℕ
  pub level_id : String

pub record Tracked : Type 0 where
  pub level_id : String
  pub level_version : String
  pub selection : Selection
  pub selected_at : ℕ

pub data Release : Type 0 where
  direction_story_reset : Release
  level_reached : Lifecycle → Release

-- An entry names the level's id and version, what happened, the event and its time.
pub data TrackedEntry : Type 0 where
  released : String → String → Release → String → ℕ → TrackedEntry
  selected : Tracked → String → ℕ → TrackedEntry

pub record ExpansionEvent : Type 0 where
  pub event : CanonicalEvent
  pub expansion : ExpansionData

pub record RenkoEvent : Type 0 where
  pub event : CanonicalEvent
  pub renko : RenkoData

pub record View : Type 0 where
  pub levels : List LiquidityLevel
  pub price_path : List PricePoint
  pub liquidity_events : List CanonicalEvent
  pub expansions : List ExpansionEvent
  pub scanners : List ExpansionEvent
  pub renko_events : List RenkoEvent
  pub tracked : Option Tracked
  pub tracked_history : List TrackedEntry
  pub renko_cycle : Option String
  pub renko_stages : List Stage
  pub prior_expansion_direction : Option Direction

abbrev pub empty_view : View
empty_view = record {
  levels = [];
  price_path = [];
  liquidity_events = [];
  expansions = [];
  scanners = [];
  renko_events = [];
  tracked = none;
  tracked_history = [];
  renko_cycle = none;
  renko_stages = [];
  prior_expansion_direction = none;
}

pub data NumericError : Type 0 where
  event_id_conflict invalid_lifecycle_transition scanner_evidence_conflict : NumericError

pub data Result {ℓ} (A : Type ℓ) : Type ℓ where
  ok : A → Result A
  err : NumericError → Result A

abbrev pub same_key : LiquidityLevel → String → String → Bool
same_key l id version = str_eq l.level_id id && str_eq l.level_version version

-- levels.get(key)
unfoldable pub get_level : String → String → List LiquidityLevel → Option LiquidityLevel
get_level id version [] = none
get_level id version (l ∷ ls) =
    if same_key l id version then Option.some l else get_level id version ls

-- levels[key] = level
unfoldable pub put_level : LiquidityLevel → List LiquidityLevel → List LiquidityLevel
put_level l [] = l ∷ []
put_level l (k ∷ ks) = if same_key k l.level_id l.level_version then l ∷ ks else k ∷ put_level l ks
