-- ===== src/Output/Stamp/Order.antt =====
-- When the order of the rendered texts is the order of the times, and when it is not.
use Prim.Native.Nat.{◌^◌}
use native.Mathlib.Nat.{pow-suc, mod-lt, div-add-mod}
use trading_ai_pipeline.Base.{
  ℕ, suc, zero, ◌+◌, ◌*◌, ◌/◌, ◌%◌, ◌<◌, true, false, ◌≡◌, refl, ap, [], ◌∷◌, ◌++◌, ltb, arith,
  if◌then◌else◌, ◌==◌,
}
use trading_ai_pipeline.Base.Text.{Text}
use trading_ai_pipeline.Output.Stamp.{Time, utc_z, fraction, digits, text_lt, stamp_lt}

pow_pos : (n : ℕ) → 0 < 10 ^ n
pow_pos zero = omega arith
pow_pos (suc n) = rw pow-suc (omega (arith, pow_pos n))

quot_lt : (p q r k s : ℕ) → q < k → r < p → p * q + r < p * k + s
quot_lt p q r k s h l = grind arith

div-lt : (p a b : ℕ) → 0 < p → a / p < b / p → a < b
div-lt p a b h l = omega (
  arith,
  quot_lt p (a / p) (a % p) (b / p) (b % p) l (mod-lt a h),
  div-add-mod a p,
  div-add-mod b p,
)

div-eq : (p a b : ℕ) → a / p ≡ b / p → a + b % p ≡ b + a % p
div-eq p a b e = omega (arith, div-add-mod a p, div-add-mod b p, ap (λ (q : ℕ). p * q) e)

digits_step :
    (p a b : ℕ)
    → 0 < p
    → ltb a b ≡ (if a / p == b / p then ltb (a % p) (b % p) else ltb (a / p) (b / p))
digits_step p a b h = ground (arith, div-lt p a b h, div-lt p b a h, div-eq p a b)

eq_step : (p a b : ℕ) → 0 < p → (a == b) ≡ (if a / p == b / p then a % p == b % p else false)
eq_step p a b h = ground (arith, div-lt p a b h, div-lt p b a h, div-eq p a b)

-- A common tail does not change the order of two digit strings of one width.
text_lt-digits :
    (n a b : ℕ) (z : Text)
    → a < 10 ^ n
    → b < 10 ^ n
    → text_lt (digits n a ++ z) (digits n b ++ z) ≡ (if a == b then text_lt z z else ltb a b)
unfolding digits text_lt
text_lt-digits zero a b z ha hb = ground arith
text_lt-digits (suc n) a b z ha hb = ground (
  arith,
  text_lt-digits n (a % 10 ^ n) (b % 10 ^ n) z (mod-lt a (pow_pos n)) (mod-lt b (pow_pos n)),
  digits_step (10 ^ n) a b (pow_pos n),
  eq_step (10 ^ n) a b (pow_pos n),
)

-- How the rendering orders the microseconds of one second: a whole second comes last, since `Z`
-- follows `.` in ASCII.
abbrev pub rank : ℕ → ℕ
rank zero = 1000000
rank (suc m) = suc m

rank_pos : (m : ℕ) → 0 < m → rank m ≡ m
rank_pos zero h = elim h [ ]
rank_pos (suc m) h = refl

tail_order :
    (a b : ℕ)
    → a < 1000000
    → b < 1000000
    → text_lt (fraction a) (fraction b) ≡ ltb (rank a) (rank b)
unfolding fraction text_lt
tail_order zero zero ha hb = refl
tail_order zero (suc b) ha hb = ground arith
tail_order (suc a) zero ha hb = ground arith
tail_order (suc a) (suc b) ha hb =
    ground (arith, text_lt-digits 6 (suc a) (suc b) (b'Z' ∷ []) ha hb)

-- For two times with microseconds below a million, the rendered text of s sorts before that of t
-- exactly when s lies in an earlier second, or in the same second with a smaller microsecond,
-- where a whole second counts as 1000000 microseconds and so sorts last.
pub stamp_lt-utc_z :
    (s t : Time)
    → s.micro < 1000000
    → t.micro < 1000000
    → stamp_lt (utc_z s) (utc_z t)
      ≡ (if s.sec == t.sec then ltb (rank s.micro) (rank t.micro) else ltb s.sec t.sec)
unfolding stamp_lt utc_z
stamp_lt-utc_z s t hs ht = rw tail_order

-- A time with a fraction of a second is later than the whole second before it, but its text sorts
-- before that of the whole second.
pub text_order_not_chronological :
    (t : Time)
    → 0 < t.micro
    → t.micro < 1000000
    → stamp_lt (utc_z t) (utc_z (record t { micro = 0 })) ≡ true
text_order_not_chronological t p h =
    rw (stamp_lt-utc_z t (record t { micro = 0 }) h (omega arith))
      (ground (arith, rank_pos t.micro p))
