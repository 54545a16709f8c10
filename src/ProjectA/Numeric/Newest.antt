-- ===== src/ProjectA/Numeric/Newest.antt =====
-- The expansion events of the state stand in the order of their times.
use trading_ai_pipeline.Base.{
  ℕ, ◌≡◌, ◌≤◌, refl, sym, ap, ◌∙◌, true, false, Option, some, List, [], ◌∷◌, Memᴰ, arith,
  Bool-cases, inl, inr,
}
use trading_ai_pipeline.ProjectA.Numeric.Events.{CanonicalEvent, Decimals, Payload, Direction}
use trading_ai_pipeline.ProjectA.Numeric.View.{View, empty_view, ok, ExpansionEvent}
use trading_ai_pipeline.ProjectA.Numeric.Fold.{
  add_price, add_expansion, add_liquidity, write_level, add_renko, reselect, step_with, step, fold,
  rebuild, sort_events, event_before,
}
use trading_ai_pipeline.ProjectA.Numeric.Order.{IsSorted, sort_events-IsSorted}
use trading_ai_pipeline.ProjectA.Numeric.Replay.{fold_cases, checked-ok}
use trading_ai_pipeline.ProjectA.Numeric.Queries.{is_eligible, last_eligible, expansion_before}
use trading_ai_pipeline.ProjectA.Numeric.Histories.{
  add_price-Keeps, reselect-Keeps, add_expansion-histories, liquidity-Keeps,
}

-- No event of the list is later than a time, and none is later than one in front of it.
abbrev Newest : ℕ → List ExpansionEvent → Type 0
Newest n [] = Unit {0}
Newest n (x ∷ xs) = (x.event.source_bar_time ≤ n) × Newest x.event.source_bar_time xs

Newest-later : (n m : ℕ) (xs : List ExpansionEvent) → n ≤ m → Newest n xs → Newest m xs
Newest-later n m [] h s = tt
Newest-later n m (x ∷ xs) h s = (omega (arith, h, s.0), s.1)

-- The history stays, or it has one new event in front.
data Adds (e : CanonicalEvent) (v w : View) : Type 0 where
  same : w.expansions ≡ v.expansions → Adds e v w
  one : (x : ExpansionEvent) → x.event ≡ e → w.expansions ≡ x ∷ v.expansions → Adds e v w

Adds-Newest :
    (e : CanonicalEvent) (v w : View)
    → Adds e v w
    → Newest e.source_bar_time v.expansions
    → Newest e.source_bar_time w.expansions
Adds-Newest e v w (same q) s = rw q s
Adds-Newest e v w (one x k q) s =
    let t : x.event.source_bar_time ≡ e.source_bar_time = ap (λ c. c.source_bar_time) k in
    rw (q, t) (omega arith, s)

step-Adds :
    (d : Decimals) (e : CanonicalEvent) (p : Payload) (v w : View)
    → step_with d e p v ≡ ok w
    → Adds e v w
unfolding step_with add_liquidity add_renko
step-Adds d e (Payload.expansion x) v w h =
    let priced = add_price d e x.market_price v in
    let kept = add_price-Keeps d e x.market_price v in
    elim (Bool-cases x.is_scanner) [
      | inl c ↦ same (ground (arith, h, c, kept.1))
      | inr c ↦
          let k : reselect e (add_expansion e x priced) ≡ w = ground (arith, h, c) in
          one (record { event = e; expansion = x }) refl
            (rw (← k) (
              (reselect-Keeps e (add_expansion e x priced)).1
              ∙ (add_expansion-histories e x priced).1
              ∙ ap (λ xs. record { event = e; expansion = x } ∷ xs) kept.1))
    ]
step-Adds d e (Payload.liquidity l) v w h =
    let k : reselect e (write_level d e l (add_price d e (some l.market_price) v)) ≡ w =
      ground (arith, h) in
    same (rw (← k) (liquidity-Keeps d e l v).1)
step-Adds d e (Payload.renko r) v w h =
    let k : reselect e (add_renko e r v) ≡ w = ground (arith, h) in
    same (rw (← k) (reselect-Keeps e (add_renko e r v)).1)

not_later :
    (a b : CanonicalEvent) → event_before b a ≡ false → a.source_bar_time ≤ b.source_bar_time
unfolding event_before
not_later a b h = ground (arith, h)

-- The events that are left to fold are not earlier than a time.
abbrev From : ℕ → List CanonicalEvent → Type 0
From n [] = Unit {0}
From n (e ∷ es) = (n ≤ e.source_bar_time) × IsSorted (e ∷ es)

next-From :
    (e : CanonicalEvent) (es : List CanonicalEvent) → IsSorted (e ∷ es) → From e.source_bar_time es
next-From e [] s = tt
next-From e (k ∷ ks) s = (not_later e k s.0, s.1)

fold-Newest :
    (d : Decimals) (es : List CanonicalEvent) (n : ℕ) (v w : View)
    → From n es
    → Newest n v.expansions
    → fold d es v ≡ ok w
    → (m : ℕ) × Newest m w.expansions
unfolding fold step
fold-Newest d [] n v w s b h = let k : v ≡ w = ground (arith, h) in (n, rw (← k) b)
fold-Newest d (e ∷ es) n v w s b h =
    let (v', first, rest) = fold_cases d es w (step d e v) h in
    let later = Newest-later n e.source_bar_time v.expansions s.0 b in
    fold-Newest d es e.source_bar_time v' w (next-From e es s.1)
      (Adds-Newest e v v' (step-Adds d e e.payload v v' first) later) rest

from_start :
    (d : Decimals) (es : List CanonicalEvent) (w : View)
    → IsSorted es
    → fold d es empty_view ≡ ok w
    → (m : ℕ) × Newest m w.expansions
from_start d [] w s h = fold-Newest d [] 0 empty_view w tt tt h
from_start d (e ∷ es) w s h = fold-Newest d (e ∷ es) 0 empty_view w (omega arith, s) tt h

all-Newest :
    (n : ℕ) (xs : List ExpansionEvent) (y : ExpansionEvent)
    → Newest n xs
    → Memᴰ y xs
    → y.event.source_bar_time ≤ n
all-Newest n [] y s m = elim m [ ]
all-Newest n (x ∷ xs) y s (Memᴰ.head q) =
    let t : y.event.source_bar_time ≡ x.event.source_bar_time =
      ap (λ c. c.event.source_bar_time) q in
    omega (arith, t, s.0)
all-Newest n (x ∷ xs) y s (Memᴰ.tail m) =
    let t = all-Newest x.event.source_bar_time xs y s.1 m in omega (arith, t, s.0)

passed_over :
    (at : ℕ) (wanted : Option Direction) (k y : ExpansionEvent) (ks : List ExpansionEvent)
    → is_eligible at wanted k ≡ false
    → is_eligible at wanted y ≡ true
    → Memᴰ y (k ∷ ks)
    → Memᴰ y ks
passed_over at wanted k y ks c g (Memᴰ.head q) =
    let r : is_eligible at wanted y ≡ is_eligible at wanted k = ap (is_eligible at wanted) q in
    absurd (ground (arith, g, c, r))
passed_over at wanted k y ks c g (Memᴰ.tail m) = m

last_eligible-latest :
    (at : ℕ) (wanted : Option Direction) (n : ℕ) (xs : List ExpansionEvent) (x y : ExpansionEvent)
    → Newest n xs
    → last_eligible at wanted xs ≡ some x
    → Memᴰ y xs
    → is_eligible at wanted y ≡ true
    → y.event.source_bar_time ≤ x.event.source_bar_time
unfolding last_eligible
last_eligible-latest at wanted n [] x y s h m g = absurd (ground (arith, h))
last_eligible-latest at wanted n (k ∷ ks) x y s h m g =
    elim (Bool-cases (is_eligible at wanted k)) [
      | inl c ↦
          let q : k ≡ x = ground (arith, h, c) in
          let t : k.event.source_bar_time ≡ x.event.source_bar_time =
            ap (λ i. i.event.source_bar_time) q in
          let b = all-Newest k.event.source_bar_time (k ∷ ks) y (omega arith, s.1) m in
          omega (arith, t, b)
      | inr c ↦
          last_eligible-latest at wanted k.event.source_bar_time ks x y s.1 (rw c at h)
            (passed_over at wanted k y ks c g m) g
    ]

last_eligible-Memᴰ :
    (at : ℕ) (wanted : Option Direction) (xs : List ExpansionEvent) (x : ExpansionEvent)
    → last_eligible at wanted xs ≡ some x
    → Memᴰ x xs × (is_eligible at wanted x ≡ true)
unfolding last_eligible
last_eligible-Memᴰ at wanted [] x h = absurd (ground (arith, h))
last_eligible-Memᴰ at wanted (k ∷ ks) x h = elim (Bool-cases (is_eligible at wanted k)) [
  | inl c ↦ let q : k ≡ x = ground (arith, h, c) in (Memᴰ.head (sym q), rw (← q) c)
  | inr c ↦ let (m, g) = last_eligible-Memᴰ at wanted ks x (rw c at h) in (Memᴰ.tail m, g)
]

-- In the state that any events are replayed to, what expansion_before returns is an expansion event of
-- the history, at or before the given time and of the given direction, and no such event of the history
-- is later.
pub expansion_before_latest :
    (d : Decimals) (events : List CanonicalEvent) (w : View) (at : ℕ) (wanted : Option Direction)
    (x : ExpansionEvent)
    → rebuild d events ≡ ok w
    → expansion_before at wanted w ≡ some x
    → Memᴰ x w.expansions
      × (is_eligible at wanted x ≡ true)
      × ((y : ExpansionEvent)
          → Memᴰ y w.expansions
          → is_eligible at wanted y ≡ true
          → y.event.source_bar_time ≤ x.event.source_bar_time)
unfolding rebuild expansion_before
expansion_before_latest d events w at wanted x r h =
    let folded = (checked-ok (fold d (sort_events events) empty_view) w r).0 in
    let (m, g) = last_eligible-Memᴰ at wanted w.expansions x h in
    let (n, s) = from_start d (sort_events events) w (sort_events-IsSorted events) folded in
    (m, g, λ y k q. last_eligible-latest at wanted n w.expansions x y s h k q)
