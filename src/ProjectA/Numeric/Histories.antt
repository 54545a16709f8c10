-- ===== src/ProjectA/Numeric/Histories.antt =====
-- What the parts of a round do to the scanner events and to the expansion events of a view.
use trading_ai_pipeline.Base.{
  ℕ, ◌≡◌, refl, ◌∙◌, Option, none, some, ◌∷◌, arith, Option-cases, inl, inr,
}
use trading_ai_pipeline.ProjectA.Numeric.Events.{
  CanonicalEvent, Decimals, LiquidityData, ExpansionData,
}
use trading_ai_pipeline.ProjectA.Numeric.View.{
  View, Tracked, Release, direction_story_reset, level_reached, put_level,
}
use trading_ai_pipeline.ProjectA.Numeric.Select.{chosen_level}
use trading_ai_pipeline.ProjectA.Numeric.Fold.{
  add_price, release, add_expansion, write_level, track, reselect, new_level,
}

-- Both histories are as they were.
abbrev pub Keeps : View → View → Type 0
Keeps v w = (w.scanners ≡ v.scanners) × (w.expansions ≡ v.expansions)

Keeps-then : (u v w : View) → Keeps u v → Keeps v w → Keeps u w
Keeps-then u v w a b = (b.0 ∙ a.0, b.1 ∙ a.1)

pub add_price-Keeps :
    (d : Decimals) (e : CanonicalEvent) (p : Option ℕ) (v : View) → Keeps v (add_price d e p v)
unfolding add_price
add_price-Keeps d e none v = (refl, refl)
add_price-Keeps d e (some n) v = (refl, refl)

release-Keeps :
    (reason : Release) (e : CanonicalEvent) (v : View) (t : Option Tracked)
    → v.tracked ≡ t
    → Keeps v (release reason e v)
unfolding release
release-Keeps reason e v none k = (rw (k, release), rw (k, release))
release-Keeps reason e v (some t) k = (rw (k, release), rw (k, release))

pub reselect-Keeps : (e : CanonicalEvent) (v : View) → Keeps v (reselect e v)
unfolding reselect track
reselect-Keeps e v = elim (Option-cases v.tracked) [
  | inr (t, k) ↦ (ground (arith, k), ground (arith, k))
  | inl k ↦ elim (Option-cases (chosen_level v)) [
    | inl c ↦ (ground (arith, k, c), ground (arith, k, c))
    | inr (l, c) ↦ (ground (arith, k, c), ground (arith, k, c))
  ]
]

-- The expansion event is put in front of its history.
pub add_expansion-histories :
    (e : CanonicalEvent) (x : ExpansionData) (v : View)
    → ((add_expansion e x v).scanners ≡ v.scanners)
      × ((add_expansion e x v).expansions ≡ record { event = e; expansion = x } ∷ v.expansions)
unfolding add_expansion
add_expansion-histories e x v =
    let v' : View = record v { expansions = record { event = e; expansion = x } ∷ v.expansions } in
    let kept = release-Keeps direction_story_reset e v' v.tracked refl in
    (ground (arith, kept.0), ground (arith, kept.1))

write_level-Keeps :
    (d : Decimals) (e : CanonicalEvent) (l : LiquidityData) (v : View)
    → Keeps v (write_level d e l v)
unfolding write_level
write_level-Keeps d e l v =
    let v' : View = record v {
      liquidity_events = e ∷ v.liquidity_events;
      levels = put_level (new_level d e l) v.levels;
    } in
    let kept = release-Keeps (level_reached l.lifecycle) e v' v.tracked refl in
    (ground (arith, kept.0), ground (arith, kept.1))

-- A round of the loop on a liquidity event.
pub liquidity-Keeps :
    (d : Decimals) (e : CanonicalEvent) (l : LiquidityData) (v : View)
    → Keeps v (reselect e (write_level d e l (add_price d e (some l.market_price) v)))
liquidity-Keeps d e l v =
    let priced = add_price d e (some l.market_price) v in
    let written = write_level d e l priced in
    Keeps-then v written (reselect e written)
      (Keeps-then v priced written (add_price-Keeps d e (some l.market_price) v)
        (write_level-Keeps d e l priced))
      (reselect-Keeps e written)
