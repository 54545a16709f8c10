-- ===== src/Output/Stamp/TextOrder.antt =====
-- The order of texts: of two that differ at a place, the one with the smaller code there is first.
use trading_ai_pipeline.Base.{◌≡◌, refl, true, false, [], ◌∷◌, arith}
use trading_ai_pipeline.Base.Text.{Text}
use trading_ai_pipeline.Output.Stamp.{text_lt}

pub text_lt_trans : (s t r : Text) → text_lt s t ≡ true → text_lt t r ≡ true → text_lt s r ≡ true
unfolding text_lt
text_lt_trans [] [] r h k = absurd (ground arith)
text_lt_trans [] (b ∷ t) [] h k = absurd (ground arith)
text_lt_trans [] (b ∷ t) (c ∷ r) h k = refl
text_lt_trans (a ∷ s) [] r h k = absurd (ground arith)
text_lt_trans (a ∷ s) (b ∷ t) [] h k = absurd (ground arith)
text_lt_trans (a ∷ s) (b ∷ t) (c ∷ r) h k = ground (arith, text_lt_trans s t r)

pub text_lt_irrefl : (s : Text) → text_lt s s ≡ false
unfolding text_lt
text_lt_irrefl [] = refl
text_lt_irrefl (a ∷ s) = ground (arith, text_lt_irrefl s)

pub text_lt_asym : (s t : Text) → text_lt s t ≡ true → text_lt t s ≡ false
unfolding text_lt
text_lt_asym [] [] h = refl
text_lt_asym [] (b ∷ t) h = refl
text_lt_asym (a ∷ s) [] h = ground arith
text_lt_asym (a ∷ s) (b ∷ t) h = ground (arith, text_lt_asym s t)

-- Not later than, and not later than: not later than.
pub text_le_trans : (s t r : Text) → text_lt t s ≡ false → text_lt r t ≡ false → text_lt r s ≡ false
unfolding text_lt
text_le_trans [] t [] h k = refl
text_le_trans [] [] (c ∷ r) h k = refl
text_le_trans [] (b ∷ t) (c ∷ r) h k = refl
text_le_trans (a ∷ s) [] r h k = absurd (ground (arith, h))
text_le_trans (a ∷ s) (b ∷ t) [] h k = absurd (ground (arith, k))
text_le_trans (a ∷ s) (b ∷ t) (c ∷ r) h k = ground (arith, h, k, text_le_trans s t r)
