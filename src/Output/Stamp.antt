-- ===== src/Output/Stamp.antt =====
-- Timestamps of output/project_a/models.py: a UTC datetime, and the text that `utc_z` renders.
-- The store compares the texts, in SQL and in Python.
pub mod Order
pub mod TextOrder
use trading_ai_pipeline.Base.{
  ℕ, suc, zero, ◌+◌, ◌-◌, ◌/◌, ◌%◌, Bool, true, false, List, [], ◌∷◌, ◌++◌, Option, some, none, ltb,
  leb, ◌==◌, not, if◌then◌else◌,
}
use trading_ai_pipeline.Base.Text.{Text}
use Prim.Native.Nat.{◌^◌}

-- An aware datetime: whole seconds since 0001-01-01T00:00:00Z, and microseconds below a million.
pub record Time : Type 0 where
  pub sec : ℕ
  pub micro : ℕ

-- 9999-12-31T23:59:59Z
abbrev pub max_sec : ℕ
max_sec = 315537897599

-- `t + timedelta(seconds=n)` and `t - timedelta(seconds=n)`; `none` is OverflowError.
unfoldable pub plus_seconds : Time → ℕ → Option Time
plus_seconds t n = if leb (t.sec + n) max_sec then some (record t { sec = t.sec + n }) else none

unfoldable pub minus_seconds : Time → ℕ → Option Time
minus_seconds t n = if leb n t.sec then some (record t { sec = t.sec - n }) else none

-- The rendered text. Its first 19 characters, `YYYY-MM-DDTHH:MM:SS`, have a fixed width, so their
-- order is the order of the seconds, which stand for them; the characters after them are kept.
pub record Stamp : Type 0 where
  pub sec : ℕ
  pub tail : Text

-- The last n decimal digits of m, as characters.
unfoldable pub digits : ℕ → ℕ → Text
digits zero m = []
digits (suc n) m = (48 + m / 10 ^ n) ∷ digits n (m % 10 ^ n)

-- `.000000Z` is rendered as `Z`.
unfoldable pub fraction : ℕ → Text
unfolding digits
fraction m = if m == 0 then b'Z' ∷ [] else b'.' ∷ (digits 6 m ++ (b'Z' ∷ []))

unfoldable pub utc_z : Time → Stamp
utc_z t = record { sec = t.sec; tail = fraction t.micro }

-- Python's `<` on str, and SQL's on TEXT.
unfoldable pub text_lt : Text → Text → Bool
text_lt [] [] = false
text_lt [] (_ ∷ _) = true
text_lt (_ ∷ _) [] = false
text_lt (a ∷ s) (b ∷ t) = if a == b then text_lt s t else ltb a b

unfoldable pub stamp_lt : Stamp → Stamp → Bool
stamp_lt s t = if s.sec == t.sec then text_lt s.tail t.tail else ltb s.sec t.sec

unfoldable pub stamp_le : Stamp → Stamp → Bool
stamp_le s t = not (stamp_lt t s)
