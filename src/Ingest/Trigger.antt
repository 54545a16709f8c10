-- ===== src/Ingest/Trigger.antt =====
-- ingest/trigger.py: the alerts that the rules read, and the helpers on them. A JSON object is the
-- record of the keys that the rules read, as text; JSON and ISO timestamps are read by libraries,
-- so that a row holds its loaded `raw` and its parsed `ts`. Times are in microseconds, and every
-- `datetime.now` of one decision is the same instant.
pub mod Mrf
pub mod Wake
use trading_ai_pipeline.Base.{
  ℕ, ◌+◌, ◌*◌, ◌≡◌, refl, String, Bool, true, false, ◌&&◌, Option, none, some, List, [], ◌∷◌, leb,
  or_else, select, is_empty, not, if◌then◌else◌,
}
use trading_ai_pipeline.Base.Int.{ℤ}
use trading_ai_pipeline.Base.Text.{Text, codes, upper, strip, text_eq, text_eq_sound}

-- The keys of `raw`; a value that is only tested for truth is a Bool.
pub record Raw : Type 0 where
  pub telemetry_only : Bool
  pub invalidation_broken : Bool
  pub invalidated : Bool
  pub side : Option Text
  pub dir : Option Text
  pub grade : Option Text
  pub tf : Option Text
  pub line : Option Text
  pub snr_line : Option Text
  pub line_id : Option Text
  pub level : Option Text

-- ingest.parser.AlertEvent, the current alert.
pub record AlertEvent : Type 0 where
  pub engine : Option Text
  pub event : Option Text
  pub dir : Option Text
  pub grade : Option Text
  pub price : Option ℤ
  pub raw : Raw

-- A row of alert_events or of wake_log; `ts` is none where it cannot be parsed.
pub record Row : Type 0 where
  pub engine : Option Text
  pub event : Option Text
  pub dir : Option Text
  pub grade : Option Text
  pub tf : Option Text
  pub line : Option Text
  pub ts : Option ℕ
  pub raw : Raw

-- _u
unfoldable pub u : Option Text → Text
u none = []
u (some s) = upper (strip s)

-- `_u(s) == word`
unfoldable pub says : Option Text → String → Bool
says s word = text_eq (u s) (codes word)

-- The truth of a string or None.
abbrev pub is_given : Option Text → Bool
is_given none = false
is_given (some t) = not (is_empty t)

abbrev pub minute : ℕ
minute = 60000000

-- `ts >= now - timedelta(minutes=n)`
abbrev pub is_within : ℕ → ℕ → Row → Bool
is_within now minutes r = elim r.ts [ none ↦ false | some ts ↦ leb now (ts + minutes * minute) ]

-- _within
unfoldable pub within : ℕ → List Row → ℕ → List Row
within now recent minutes = select (is_within now minutes) recent

-- _snr_line
unfoldable pub snr_line : Raw → Option Text
snr_line raw = or_else raw.line (or_else raw.snr_line (or_else raw.line_id raw.level))

abbrev pub cooldown_min : ℕ
cooldown_min = 15

abbrev pub resonance_window_min : ℕ
resonance_window_min = 5

abbrev pub mrf_window_min : ℕ
mrf_window_min = 30

abbrev pub mrf_cooldown_min : ℕ
mrf_cooldown_min = 3

abbrev pub mrf_veto_min : ℕ
mrf_veto_min = 15

-- A text is one word at most.
pub says_other :
    (s : Option Text) (a b : String) → says s a ≡ true → says s b ≡ text_eq (codes a) (codes b)
unfolding says
says_other s a b h = rw (text_eq_sound (u s) (codes a) h) refl
