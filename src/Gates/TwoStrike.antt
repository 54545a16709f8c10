-- ===== src/Gates/TwoStrike.antt =====
-- gates/two_strike.py. The reason text is left out.
use trading_ai_pipeline.Base.{
  ℕ, zero, suc, ◌+◌, ◌≤◌, ◌≡◌, ◌↔◌, refl, ap, Bool, true, false, String, Option, none, some, List,
  [], ◌∷◌, ◌++◌, reverse, select, length, last?, all, leb, or_else, str_eq, arith, if◌then◌else◌,
}

-- `direction` is whether the call has one; a missing band is None.
pub record Call : Type 0 where
  pub band : Option String
  pub direction : Bool
  pub invalidated : Bool

abbrev pub same_band : Option String → Option String → Bool
same_band none none = true
same_band (some x) (some y) = str_eq x y
same_band _ _ = false

pub record StrikeVerdict : Type 0 where
  pub chop : Bool
  pub stop_direction : Bool
  pub band : Option String
  pub strikes : ℕ
  pub threshold : ℕ

-- The loop over the reversed calls, up to the first that was not invalidated.
unfoldable pub streak : List Call → ℕ
streak [] = 0
streak (c ∷ rest) = let s = streak rest in if c.invalidated then s + 1 else 0

abbrev pub last_band : List Call → Option String
last_band calls = elim (last? calls) [ none ↦ none | some c ↦ c.band ]

unfoldable pub direction_calls : List Call → List Call
direction_calls = select Call.direction

unfoldable pub band_calls : Option String → List Call → List Call
unfolding direction_calls
band_calls band calls = select (λ c. same_band c.band band) (direction_calls calls)

unfoldable pub evaluate_two_strike : List Call → Option String → ℕ → StrikeVerdict
evaluate_two_strike calls band_key threshold =
    let band = or_else band_key (last_band (direction_calls calls)) in
    let strikes = streak (reverse (band_calls band calls)) in
    let chop = leb threshold strikes in
    record {
      chop = chop;
      stop_direction = chop;
      band = band;
      strikes = strikes;
      threshold = threshold;
    }

streak_complete :
    (n : ℕ) (recent older : List Call)
    → length recent ≡ n
    → all Call.invalidated recent ≡ true
    → n ≤ streak (recent ++ older)
unfolding streak
streak_complete n [] older l h = omega arith
streak_complete n (c ∷ recent) older l h =
    ground (arith, streak_complete (length recent) recent older refl)

streak_sound :
    (n : ℕ) (calls : List Call)
    → n ≤ streak calls
    → (recent older : List Call) × (calls ≡ recent ++ older)
      × (length recent ≡ n)
      × (all Call.invalidated recent ≡ true)
unfolding streak
streak_sound zero calls h = ([], calls, refl, refl, refl)
streak_sound (suc n) [] h = absurd (omega arith)
streak_sound (suc n) (c ∷ calls) h =
    let hit : c.invalidated ≡ true = ground arith in
    let (recent, older, e, l, a) = streak_sound n calls (ground arith) in
    (c ∷ recent, older, ap (λ (t : List Call). c ∷ t) e, ap suc l, ground arith)

-- Directions are stopped exactly when the newest calls of the band, as many as the threshold, were
-- all invalidated; calls without a direction and calls of other bands do not count.
pub chop_iff :
    (calls : List Call) (band : String) (threshold : ℕ)
    → ((evaluate_two_strike calls (some band) threshold).chop ≡ true) ↔ (
        (recent older : List Call) × (reverse (band_calls (some band) calls) ≡ recent ++ older)
        × (length recent ≡ threshold)
        × (all Call.invalidated recent ≡ true))
unfolding evaluate_two_strike
chop_iff calls band threshold = (
  λ h. streak_sound threshold (reverse (band_calls (some band) calls)) (ground arith),
  λ (recent, older, e, l, a). rw e (ground (arith, streak_complete threshold recent older l a)),
)
