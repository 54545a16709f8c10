-- ===== src/Ingest/Service/Gates.antt =====
-- What an event has passed when the checks of the service let a ready event through.
use trading_ai_pipeline.Base.{ℕ, ◌≡◌, refl, true, false, none, str_eq, arith}
use trading_ai_pipeline.Base.Int.{ℤ, pos, negsuc, ◌≤ℤ◌}
use trading_ai_pipeline.Output.Stamp.{Time}
use trading_ai_pipeline.Ingest.Service.Rows.{
  Event, Field, number, absent, malformed, ProjectAConfig,
}
use trading_ai_pipeline.Ingest.Service.Validate.{
  runtime_validate, validate_times, validate_evidence, validate_snr, validate_ready, is_future,
  is_stale, is_analysis_ready, is_accepted, spread_missing, spread_above, bounds_malformed,
}

-- The gates of an event that is handed on.
pub record IsReleasable (c : ProjectAConfig) (now : Time) (e : Event) : Type 0 where
  pub symbol : str_eq e.symbol c.enabled_symbol ≡ true
  pub timeframe : str_eq e.timeframe c.base_timeframe ≡ true
  pub class : is_analysis_ready e.event_class ≡ true
  pub no_authority : e.payload.has_authority_field ≡ false
  pub not_future : is_future c now e ≡ false
  pub not_stale : is_stale c now e ≡ false
  pub accepted : is_accepted e.disposition ≡ true
  pub spread : (n : ℕ) × (e.payload.spread_points ≡ number (pos n)) × (pos n ≤ℤ c.max_spread_points)
  pub bounds :
      (low : ℤ) × (high : ℤ) × (e.payload.snr_low ≡ number low)
      × (e.payload.snr_high ≡ number high)
      × (low ≤ℤ high)

spread_within :
    (limit : ℤ) (f : Field)
    → spread_missing f ≡ false
    → spread_above limit f ≡ false
    → (n : ℕ) × (f ≡ number (pos n)) × (pos n ≤ℤ limit)
spread_within limit (number (pos n)) m a = (n, refl, ground (arith, a))
spread_within limit (number (negsuc n)) m a = absurd (ground (arith, m))
spread_within limit absent m a = absurd (ground (arith, m))
spread_within limit malformed m a = absurd (ground (arith, m))

bounds_ordered :
    (low high : Field)
    → bounds_malformed low high ≡ false
    → (l : ℤ) × (h : ℤ) × (low ≡ number l) × (high ≡ number h) × (l ≤ℤ h)
bounds_ordered (number l) (number h) m = (l, h, refl, refl, ground (arith, m))
bounds_ordered (number l) absent m = absurd (ground (arith, m))
bounds_ordered (number l) malformed m = absurd (ground (arith, m))
bounds_ordered absent high m = absurd (ground (arith, m))
bounds_ordered malformed high m = absurd (ground (arith, m))

validate_evidence-ready :
    (c : ProjectAConfig) (e : Event)
    → is_analysis_ready e.event_class ≡ true
    → validate_evidence c e ≡ none
    → (bounds_malformed e.payload.snr_low e.payload.snr_high ≡ false)
      × (spread_missing e.payload.spread_points ≡ false)
      × (spread_above c.max_spread_points e.payload.spread_points ≡ false)
      × (is_accepted e.disposition ≡ true)
unfolding validate_evidence validate_snr validate_ready
validate_evidence-ready c e r q =
    (ground (arith, q, r), ground (arith, q, r), ground (arith, q, r), ground (arith, q, r))

pub runtime_validate-IsReleasable :
    (c : ProjectAConfig) (now : Time) (e : Event)
    → is_analysis_ready e.event_class ≡ true
    → runtime_validate c now e ≡ none
    → IsReleasable c now e
unfolding runtime_validate validate_times
runtime_validate-IsReleasable c now e r q =
    let evidence : validate_evidence c e ≡ none = ground (arith, q) in
    let (bounds, present, within, taken) = validate_evidence-ready c e r evidence in
    record {
      symbol = ground (arith, q);
      timeframe = ground (arith, q, r);
      class = r;
      no_authority = ground (arith, q);
      not_future = ground (arith, q);
      not_stale = ground (arith, q);
      accepted = taken;
      spread = spread_within c.max_spread_points e.payload.spread_points present within;
      bounds = bounds_ordered e.payload.snr_low e.payload.snr_high bounds;
    }
