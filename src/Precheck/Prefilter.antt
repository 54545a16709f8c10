-- ===== src/Precheck/Prefilter.antt =====
-- precheck/prefilter.py: `decide`. Prices and thresholds are natural numbers of a common unit; reading
-- the price from the page is left out.
use trading_ai_pipeline.Base.{
  ℕ, ◌+◌, ◌-◌, ◌≤◌, ◌<◌, ◌≡◌, ◌↔◌, Bool, true, false, Option, none, some, List, [], ◌∷◌, Memᴰ, leb,
  ltb, arith, Bool-cases, Option-cases, inl, inr, if◌then◌else◌,
}

-- abs(a - b)
abbrev pub distance : ℕ → ℕ → ℕ
distance a b = (a - b) + (b - a)

pub data Reason : Type 0 where
  first_cycle moved near_key_level quiet : Reason

pub record PrecheckDecision : Type 0 where
  pub triggered : Bool
  pub reason : Reason
  pub price : ℕ
  pub prev_price : Option ℕ
  pub nearest_level : Option ℕ
  pub delta : Option ℕ
  pub near_dist : Option ℕ

-- min(key_levels, key=…): the first of the nearest levels.
unfoldable pub nearest : ℕ → List ℕ → Option ℕ
nearest price [] = none
nearest price (level ∷ levels) = elim (nearest price levels) [
  | none ↦ some level
  | some other ↦
      if ltb (distance other price) (distance level price) then some other else some level
]

-- _nearest_level
unfoldable pub nearest_level : ℕ → List ℕ → Option ℕ × Option ℕ
nearest_level price key_levels = elim (nearest price key_levels) [
  | none ↦ (none, none)
  | some level ↦ (some level, some (distance level price))
]

abbrev pub is_near : Option ℕ → ℕ → Bool
is_near none near = false
is_near (some near_dist) near = leb near_dist near

unfoldable pub decide : ℕ → Option ℕ → List ℕ → ℕ → ℕ → PrecheckDecision
decide price prev_price key_levels move_threshold near =
    let (level, near_dist) = nearest_level price key_levels in
    let near_hit = is_near near_dist near in
    elim prev_price [
      | none ↦ record {
        triggered = true;
        reason = first_cycle;
        price = price;
        prev_price = none;
        nearest_level = level;
        delta = none;
        near_dist = near_dist;
      }
      | some prev ↦
          let delta = distance price prev in
          record {
            triggered = if leb move_threshold delta then true else near_hit;
            reason =
                if leb move_threshold delta
                then moved
                else if near_hit
                then near_key_level
                else quiet;
            price = price;
            prev_price = some prev;
            nearest_level = level;
            delta = some delta;
            near_dist = near_dist;
          }
    ]

nearest-none :
    (price : ℕ) (levels : List ℕ) (level : ℕ) → nearest price levels ≡ none → Memᴰ level levels → ⊥
unfolding nearest
nearest-none price [] level h m = elim m [ ]
nearest-none price (x ∷ levels) level h m = elim (Option-cases (nearest price levels)) [
  | inl alone ↦ ground arith
  | inr (other, e) ↦ ground arith
]

nearest_least :
    (price : ℕ) (levels : List ℕ) (best level : ℕ)
    → nearest price levels ≡ some best
    → Memᴰ level levels
    → distance best price ≤ distance level price
unfolding nearest
nearest_least price [] best level h m = elim m [ ]
nearest_least price (x ∷ levels) best level h (Memᴰ.head e) =
    let same : level ≡ x = e in
    elim (Option-cases (nearest price levels)) [
      | inl alone ↦ ground arith
      | inr (other, found) ↦ ground arith
    ]
nearest_least price (x ∷ levels) best level h (Memᴰ.tail m) =
    elim (Option-cases (nearest price levels)) [
      | inl alone ↦ absurd (nearest-none price levels level alone m)
      | inr (other, found) ↦ ground (arith, nearest_least price levels other level found m)
    ]

nearest-Mem :
    (price : ℕ) (levels : List ℕ) (best : ℕ) → nearest price levels ≡ some best → Memᴰ best levels
unfolding nearest
nearest-Mem price [] best h = absurd (ground arith)
nearest-Mem price (x ∷ levels) best h = elim (Option-cases (nearest price levels)) [
  | inl alone ↦ Memᴰ.head (ground arith)
  | inr (other, found) ↦ elim (Bool-cases (ltb (distance other price) (distance x price))) [
    | inl nearer ↦
        let same : best ≡ other = ground arith in
        rw same (Memᴰ.tail (nearest-Mem price levels other found))
    | inr farther ↦ Memᴰ.head (ground arith)
  ]
]

-- A cycle after the first is skipped exactly when the price has moved by less than the threshold and
-- is farther than the given distance from every key level.
pub skipped_iff :
    (price prev : ℕ) (levels : List ℕ) (threshold near : ℕ)
    → ((decide price (some prev) levels threshold near).triggered ≡ false) ↔ (
        (distance price prev < threshold)
        × ((level : ℕ) → Memᴰ level levels → near < distance level price))
unfolding decide nearest_level
skipped_iff price prev levels threshold near = elim (Option-cases (nearest price levels)) [
  | inl alone ↦ (
    λ h. (ground arith, λ level m. absurd (nearest-none price levels level alone m)),
    λ (moved_, far). ground arith,
  )
  | inr (best, found) ↦ (
    λ h. (ground arith, λ level m. ground (arith, nearest_least price levels best level found m)),
    λ (moved_, far). ground (arith, far best (nearest-Mem price levels best found)),
  )
]
