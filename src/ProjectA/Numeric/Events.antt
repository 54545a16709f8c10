-- ===== src/ProjectA/Numeric/Events.antt =====
-- The canonical events of project_a/numeric_state.py and the parts of the state. Decimals are whole
-- numbers of a common unit, and a time is its `_time_key`, in microseconds.
use trading_ai_pipeline.Base.{ℕ, String, Bool, Option}
use trading_ai_pipeline.Base.Int.{ℤ}

pub data Side : Type 0 where
  ask bid : Side

pub data Direction : Type 0 where
  up down flat : Direction

pub data Freshness : Type 0 where
  fresh aging stale market_closed missing clock_invalid source_unavailable provisional : Freshness

pub data Lifecycle : Type 0 where
  idle approach hit reject break invalidated expired removed stale source_unavailable : Lifecycle

pub data Grade : Type 0 where
  prime valid other_grade : Grade

pub data Stage : Type 0 where
  e1 e2 main fire reset invalidated : Stage

pub data Zone : Type 0 where
  near_touch approach far : Zone

pub data DistanceStatus : Type 0 where
  unavailable crossed_pending hit_intersection available : DistanceStatus

pub record LiquidityData : Type 0 where
  pub level_id : String
  pub level_version : String
  pub side : Side
  pub level_price : ℕ
  pub market_price : ℕ
  pub confirmed_5m_atr14 : Option ℕ
  pub atr_confirmed : Bool
  pub level_freshness_status : Freshness
  pub market_price_freshness_status : Freshness
  pub atr_freshness_status : Freshness
  pub created_at_source : ℕ
  pub grade : Grade
  pub mtf_confluence : ℕ
  pub touch_count : ℕ
  pub lifecycle : Lifecycle

-- `is_scanner` is the test that the producer is EXP_SCANNER; `correlation` the symbol, feed, time frame
-- and bar time; `facts` the five quality facts.
pub record ExpansionData : Type 0 where
  pub is_scanner : Bool
  pub event : String
  pub direction : Direction
  pub market_price : Option ℕ
  pub correlation : String
  pub facts : String

pub record RenkoData : Type 0 where
  pub cycle_id : Option String
  pub stage : Stage
  pub direction : String

pub data Payload : Type 0 where
  liquidity : LiquidityData → Payload
  expansion : ExpansionData → Payload
  renko : RenkoData → Payload

pub record CanonicalEvent : Type 0 where
  pub canonical_event_id : String
  pub producer_id : String
  pub producer_revision : String
  pub producer_event_id : String
  pub source_bar_time : ℕ
  pub confirmed : Bool
  pub freshness_status : Freshness
  pub payload : Payload
  pub canonical_payload_sha256 : String
  pub raw_payload : String

pub record LiquidityDistance : Type 0 where
  pub signed_distance_price : ℤ
  pub absolute_distance_price : ℕ
  pub distance_atr : Option ℕ
  pub distance_zone : Option Zone
  pub status : DistanceStatus
  pub expected_approach_direction : Direction

pub record LiquidityLevel : Type 0 where
  pub level_id : String
  pub level_version : String
  pub side : Side
  pub level_price : ℕ
  pub created_at_source : ℕ
  pub grade : Grade
  pub mtf_confluence : ℕ
  pub touch_count : ℕ
  pub lifecycle : Lifecycle
  pub confirmed : Bool
  pub freshness_status : Freshness
  pub last_event_id : String
  pub last_observed_at : ℕ
  pub distance : LiquidityDistance

pub record PricePoint : Type 0 where
  pub event_id : String
  pub source_bar_time : ℕ
  pub market_price : ℕ
  pub delta : Option ℤ
  pub delta_pct : Option ℤ
  pub movement_direction : Option Direction

-- What the code takes from the decimal library, on numbers that are not negative: `_divide_decimal`, and
-- what the context keeps of the exact result of an operation, which is 28 significant digits.
pub record Decimals : Type 0 where
  pub divide : ℕ → ℕ → ℕ
  pub round : ℕ → ℕ
