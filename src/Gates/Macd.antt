-- ===== src/Gates/Macd.antt =====
-- gates/macd_gate.py. The display text is left out.
use trading_ai_pipeline.Base.{
  ℕ, ◌+◌, ◌≤◌, ◌≡◌, refl, ◌==◌, ◌↔◌, ◌⊎◌, inl, inr, Bool, true, ◌&&◌, Option, none, some, leb,
  arith, if◌then◌else◌,
}
use trading_ai_pipeline.Base.Int.{ℤ, pos, ltb_ℤ, negate, negate_parts, ◌<ℤ◌}

pub data Vote : Type 0 where
  bull bear neutral : Vote

-- One time frame's values; a missing key and None are both `none`.
pub record Reading : Type 0 where
  pub hist : Option ℤ
  pub macd : Option ℤ
  pub signal : Option ℤ

abbrev pub classify_values : ℤ → ℤ → ℤ → Vote
classify_values hist macd signal =
    if ltb_ℤ (pos 0) hist && ltb_ℤ signal macd
    then bull
    else if ltb_ℤ hist (pos 0) && ltb_ℤ macd signal
    then bear
    else neutral

abbrev pub classify_fields : Option ℤ → Option ℤ → Option ℤ → Vote
classify_fields (some hist) (some macd) (some signal) = classify_values hist macd signal
classify_fields _ _ _ = neutral

unfoldable pub classify_tf : Option Reading → Vote
classify_tf none = neutral
classify_tf (some r) = classify_fields r.hist r.macd r.signal

-- readings.get(tf) for the four time frames that vote.
pub record Readings : Type 0 where
  pub m1 : Option Reading
  pub m5 : Option Reading
  pub m15 : Option Reading
  pub m30 : Option Reading

pub record MacdVerdict : Type 0 where
  pub m1 : Vote
  pub m5 : Vote
  pub m15 : Vote
  pub m30 : Vote
  pub direction : Vote
  pub score : ℕ
  pub gate_pass : Bool

abbrev pub is_bull : Vote → ℕ
is_bull bull = 1
is_bull _ = 0

abbrev pub is_bear : Vote → ℕ
is_bear bear = 1
is_bear _ = 0

-- The counts of the four votes, and the verdict on them.
abbrev pub tally : (Vote → ℕ) → Vote → Vote → Vote → Vote → ℕ
tally f a b c d = f a + f b + f c + f d

unfoldable pub verdict : Vote → Vote → Vote → Vote → MacdVerdict
verdict a b c d =
    let bulls = tally is_bull a b c d in
    let bears = tally is_bear a b c d in
    let score = if leb bears bulls then bulls else bears in
    record {
      m1 = a;
      m5 = b;
      m15 = c;
      m30 = d;
      direction = if leb bears bulls then bull else bear;
      score = score;
      gate_pass = leb 3 score;
    }

unfoldable pub compute_macd_gate : Readings → MacdVerdict
compute_macd_gate r =
    verdict (classify_tf r.m1) (classify_tf r.m5) (classify_tf r.m15) (classify_tf r.m30)

-- What a reading says, by its values: none of them is missing, the histogram is above zero and the line
-- above its signal.
abbrev pub IsRising : Option ℤ → Option ℤ → Option ℤ → Type 0
IsRising (some hist) (some macd) (some signal) = (pos 0 <ℤ hist) × (signal <ℤ macd)
IsRising _ _ _ = ⊥

-- The histogram is below zero and the line below its signal.
abbrev pub IsFalling : Option ℤ → Option ℤ → Option ℤ → Type 0
IsFalling (some hist) (some macd) (some signal) = (hist <ℤ pos 0) × (macd <ℤ signal)
IsFalling _ _ _ = ⊥

abbrev pub IsBullish : Option Reading → Type 0
IsBullish none = ⊥
IsBullish (some r) = IsRising r.hist r.macd r.signal

abbrev pub IsBearish : Option Reading → Type 0
IsBearish none = ⊥
IsBearish (some r) = IsFalling r.hist r.macd r.signal

-- Three of four.
abbrev pub ThreeOf : Type 0 → Type 0 → Type 0 → Type 0 → Type 0
ThreeOf A B C D = (A × B × C) ⊎ (A × B × D) ⊎ (A × C × D) ⊎ (B × C × D)

classify_fields-IsRising : (h m s : Option ℤ) → (classify_fields h m s ≡ bull) ↔ IsRising h m s
classify_fields-IsRising none m s = ((λ e. absurd (ground (arith, e))), (λ x. elim x [ ]))
classify_fields-IsRising (some h) none s = ((λ e. absurd (ground (arith, e))), (λ x. elim x [ ]))
classify_fields-IsRising (some h) (some m) none =
    ((λ e. absurd (ground (arith, e))), (λ x. elim x [ ]))
classify_fields-IsRising (some h) (some m) (some s) = ground arith

classify_fields-IsFalling : (h m s : Option ℤ) → (classify_fields h m s ≡ bear) ↔ IsFalling h m s
classify_fields-IsFalling none m s = ((λ e. absurd (ground (arith, e))), (λ x. elim x [ ]))
classify_fields-IsFalling (some h) none s = ((λ e. absurd (ground (arith, e))), (λ x. elim x [ ]))
classify_fields-IsFalling (some h) (some m) none =
    ((λ e. absurd (ground (arith, e))), (λ x. elim x [ ]))
classify_fields-IsFalling (some h) (some m) (some s) = ground arith

classify_tf-IsBullish : (o : Option Reading) → (classify_tf o ≡ bull) ↔ IsBullish o
unfolding classify_tf
classify_tf-IsBullish none = ((λ e. absurd (ground (arith, e))), (λ x. elim x [ ]))
classify_tf-IsBullish (some r) = classify_fields-IsRising r.hist r.macd r.signal

classify_tf-IsBearish : (o : Option Reading) → (classify_tf o ≡ bear) ↔ IsBearish o
unfolding classify_tf
classify_tf-IsBearish none = ((λ e. absurd (ground (arith, e))), (λ x. elim x [ ]))
classify_tf-IsBearish (some r) = classify_fields-IsFalling r.hist r.macd r.signal

three_bulls :
    (a b c d : Vote)
    → (3 ≤ tally is_bull a b c d) ↔ ThreeOf (a ≡ bull) (b ≡ bull) (c ≡ bull) (d ≡ bull)
three_bulls a b c d = ground arith

three_bears :
    (a b c d : Vote)
    → (3 ≤ tally is_bear a b c d) ↔ ThreeOf (a ≡ bear) (b ≡ bear) (c ≡ bear) (d ≡ bear)
three_bears a b c d = ground arith

verdict_bull :
    (a b c d : Vote)
    → ((verdict a b c d).gate_pass ≡ true) × ((verdict a b c d).direction ≡ bull)
      ↔ (3 ≤ tally is_bull a b c d)
unfolding verdict
verdict_bull a b c d = ground arith

verdict_bear :
    (a b c d : Vote)
    → ((verdict a b c d).gate_pass ≡ true) × ((verdict a b c d).direction ≡ bear)
      ↔ (3 ≤ tally is_bear a b c d)
unfolding verdict
verdict_bear a b c d = ground arith

both : {A B : Type 0} → A ↔ B → {C : Type 0} → B ↔ C → A ↔ C
both f g = ((λ a. g.0 (f.0 a)), (λ c. f.1 (g.1 c)))

three_map :
    {A B C D A' B' C' D' : Type 0}
    → (A → A')
    → (B → B')
    → (C → C')
    → (D → D')
    → ThreeOf A B C D
    → ThreeOf A' B' C' D'
three_map f g h k (inl (a, b, c)) = inl (f a, g b, h c)
three_map f g h k (inr (inl (a, b, d))) = inr (inl (f a, g b, k d))
three_map f g h k (inr (inr (inl (a, c, d)))) = inr (inr (inl (f a, h c, k d)))
three_map f g h k (inr (inr (inr (b, c, d)))) = inr (inr (inr (g b, h c, k d)))

-- The gate passes for BULL exactly when three of the readings of M1, 5m, 15m and 30m are complete, with
-- the histogram above zero and the line above its signal; and for BEAR exactly when three of them are
-- complete, with the histogram below zero and the line below its signal.
pub gate_pass_iff :
    (r : Readings)
    → let v = compute_macd_gate r in
      (((v.gate_pass ≡ true) × (v.direction ≡ bull))
        ↔ ThreeOf (IsBullish r.m1) (IsBullish r.m5) (IsBullish r.m15) (IsBullish r.m30))
      × (((v.gate_pass ≡ true) × (v.direction ≡ bear))
          ↔ ThreeOf (IsBearish r.m1) (IsBearish r.m5) (IsBearish r.m15) (IsBearish r.m30))
unfolding compute_macd_gate
gate_pass_iff r =
    let up = λ (o : Option Reading). classify_tf-IsBullish o in
    let down = λ (o : Option Reading). classify_tf-IsBearish o in
    (
      both (both (verdict_bull _ _ _ _) (three_bulls _ _ _ _)) (
        three_map (up r.m1).0 (up r.m5).0 (up r.m15).0 (up r.m30).0,
        three_map (up r.m1).1 (up r.m5).1 (up r.m15).1 (up r.m30).1,
      ),
      both (both (verdict_bear _ _ _ _) (three_bears _ _ _ _)) (
        three_map (down r.m1).0 (down r.m5).0 (down r.m15).0 (down r.m30).0,
        three_map (down r.m1).1 (down r.m5).1 (down r.m15).1 (down r.m30).1,
      ),
    )

-- The same market seen upside down.
abbrev pub mirror_value : Option ℤ → Option ℤ
mirror_value none = none
mirror_value (some h) = some (negate h)

abbrev pub mirror : Option Reading → Option Reading
mirror none = none
mirror (some r) = some (record { hist = mirror_value r.hist; macd = r.signal; signal = r.macd })

abbrev pub mirror_all : Readings → Readings
mirror_all r = record { m1 = mirror r.m1; m5 = mirror r.m5; m15 = mirror r.m15; m30 = mirror r.m30 }

abbrev pub opposite : Vote → Vote
opposite bull = bear
opposite bear = bull
opposite neutral = neutral

classify_fields-mirror :
    (h m s : Option ℤ) → classify_fields (mirror_value h) s m ≡ opposite (classify_fields h m s)
classify_fields-mirror none m s = refl
classify_fields-mirror (some h) none none = refl
classify_fields-mirror (some h) none (some s) = refl
classify_fields-mirror (some h) (some m) none = refl
classify_fields-mirror (some h) (some m) (some s) = ground (arith, negate_parts h)

classify_tf-mirror : (o : Option Reading) → classify_tf (mirror o) ≡ opposite (classify_tf o)
unfolding classify_tf
classify_tf-mirror none = refl
classify_tf-mirror (some r) = classify_fields-mirror r.hist r.macd r.signal

-- As many votes for either direction: the tie names BULL.
abbrev pub is_tie : MacdVerdict → Bool
is_tie v = tally is_bull v.m1 v.m5 v.m15 v.m30 == tally is_bear v.m1 v.m5 v.m15 v.m30

verdict-mirror :
    (a b c d : Vote)
    → let v = verdict a b c d in
      let w = verdict (opposite a) (opposite b) (opposite c) (opposite d) in
      (w.gate_pass ≡ v.gate_pass)
      × (w.score ≡ v.score)
      × (w.direction ≡ (if is_tie v then bull else opposite v.direction))
unfolding verdict
verdict-mirror a b c d = (ground arith, ground arith, ground arith)

-- The gate treats both directions alike: on the mirrored readings, with the histogram negated and
-- the two lines exchanged, it passes exactly when it passed, with the same score, and it names the
-- opposite direction, but for a tie, which names BULL in both.
pub macd_gate_symmetric :
    (r : Readings)
    → let v = compute_macd_gate r in
      let w = compute_macd_gate (mirror_all r) in
      (w.gate_pass ≡ v.gate_pass)
      × (w.score ≡ v.score)
      × (w.direction ≡ (if is_tie v then bull else opposite v.direction))
unfolding compute_macd_gate
macd_gate_symmetric r =
    simp classify_tf-mirror
      (verdict-mirror (classify_tf r.m1) (classify_tf r.m5) (classify_tf r.m15) (classify_tf r.m30))
