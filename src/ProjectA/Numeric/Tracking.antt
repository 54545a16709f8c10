-- ===== src/ProjectA/Numeric/Tracking.antt =====
-- The tracked level is a level of the state, and its lifecycle is active.
use mathlib.Core.Path.{subst}
use trading_ai_pipeline.Base.{
  ℕ, ◌≡◌, refl, sym, true, false, ◌&&◌, Option, none, some, List, [], ◌∷◌, Memᴰ, select, str_eq_iff,
  arith, Option-cases, Bool-cases, inl, inr,
}
use trading_ai_pipeline.Base.Search.{first_by-select}
use trading_ai_pipeline.ProjectA.Numeric.Events.{
  CanonicalEvent, Decimals, Payload, LiquidityData, ExpansionData, LiquidityLevel,
}
use trading_ai_pipeline.ProjectA.Numeric.View.{
  View, empty_view, ok, ExpansionEvent, Tracked, Release, direction_story_reset, level_reached,
  get_level, put_level,
}
use trading_ai_pipeline.ProjectA.Numeric.Select.{
  is_active, is_candidate, expected_side, best, ranks_before, chosen_level, latest_story, is_story,
}
use trading_ai_pipeline.ProjectA.Numeric.Fold.{
  add_price, release, add_expansion, add_liquidity, write_level, new_level, add_renko, track,
  tracks, reselect, step, turns, is_terminal, step_with, fold, rebuild, sort_events,
}
use trading_ai_pipeline.ProjectA.Numeric.Replay.{fold_cases, checked-ok}
use trading_ai_pipeline.ProjectA.Numeric.Keys.{UniqueKeys, get-put, put_level-UniqueKeys, get-own}

abbrev pub Tracks : Option Tracked → List LiquidityLevel → Type 0
Tracks none ls = Unit {0}
Tracks (some t) ls =
    (l : LiquidityLevel) × (get_level t.level_id t.level_version ls ≡ some l)
    × (is_active l.lifecycle ≡ true)

abbrev pub IsSound : View → Type 0
IsSound v = UniqueKeys v.levels × Tracks v.tracked v.levels

chosen_level-Memᴰ :
    (v : View) (l : LiquidityLevel)
    → chosen_level v ≡ some l
    → Memᴰ l v.levels × (is_active l.lifecycle ≡ true)
unfolding chosen_level best is_candidate
chosen_level-Memᴰ v l e = elim (Option-cases (latest_story v.expansions)) [
  | inl none_yet ↦ absurd (ground (arith, e, none_yet))
  | inr (story, found) ↦
      elim (Option-cases
        (best (select (is_candidate (expected_side story.expansion.direction)) v.levels))) [
          | inl empty ↦ absurd (ground (arith, e, found, empty))
          | inr (k, some_k) ↦
              let same : k ≡ l = ground (arith, e, found, some_k) in
              let (m, fits) =
                first_by-select ranks_before
                  (is_candidate (expected_side story.expansion.direction)) v.levels k some_k in
              (subst (λ x. Memᴰ x v.levels) same m, ground (arith, fits, same))
        ]
]

reselect-IsSound : (e : CanonicalEvent) (v : View) → IsSound v → IsSound (reselect e v)
unfolding reselect track
reselect-IsSound e v s = elim (Option-cases v.tracked) [
  | inr (t, k) ↦ let q : reselect e v ≡ v = ground (arith, k) in subst IsSound (sym q) s
  | inl k ↦ elim (Option-cases (chosen_level v)) [
    | inl c ↦ let q : reselect e v ≡ v = ground (arith, k, c) in subst IsSound (sym q) s
    | inr (l, c) ↦
        let (m, active) = chosen_level-Memᴰ v l c in
        let q : reselect e v ≡ track e l v = ground (arith, k, c) in
        subst IsSound (sym q) (s.0, (l, get-own l v.levels s.0 m, active))
  ]
]

untracked-IsSound :
    (w : View) (ls : List LiquidityLevel)
    → ls ≡ w.levels
    → none ≡ w.tracked
    → UniqueKeys ls
    → IsSound w
untracked-IsSound w ls e k u = (subst UniqueKeys e u, subst (λ o. Tracks o w.levels) k tt)

release-IsSound :
    (reason : Release) (e : CanonicalEvent) (v : View) (t : Option Tracked)
    → v.tracked ≡ t
    → UniqueKeys v.levels
    → IsSound (release reason e v)
unfolding release
release-IsSound reason e v none k u =
    untracked-IsSound (release reason e v) v.levels (ground (arith, k)) (ground (arith, k)) u
release-IsSound reason e v (some t) k u =
    untracked-IsSound (release reason e v) v.levels (ground (arith, k)) (ground (arith, k)) u

add_price-IsSound :
    (d : Decimals) (e : CanonicalEvent) (p : Option ℕ) (v : View)
    → IsSound v
    → IsSound (add_price d e p v)
unfolding add_price
add_price-IsSound d e none v s = s
add_price-IsSound d e (some n) v s = s

add_expansion-IsSound :
    (e : CanonicalEvent) (x : ExpansionData) (v : View) → IsSound v → IsSound (add_expansion e x v)
unfolding add_expansion
add_expansion-IsSound e x v s =
    let item : ExpansionEvent = record { event = e; expansion = x } in
    let v' = record v { expansions = item ∷ v.expansions } in
    elim (Bool-cases (is_story item)) [
      | inr c ↦ rw c s
      | inl c ↦ elim (Bool-cases (turns v.prior_expansion_direction x.direction)) [
        | inl t ↦ rw (c, t) (release-IsSound direction_story_reset e v' v.tracked refl s.0)
        | inr t ↦ rw (c, t) s
      ]
    ]

-- The level that is written is the tracked one where the keys agree.
put_tracked :
    (d : Decimals) (e : CanonicalEvent) (l : LiquidityData) (ls : List LiquidityLevel)
    (t : Option Tracked)
    → (tracks t l && is_terminal l.lifecycle) ≡ false
    → Tracks t ls
    → Tracks t (put_level (new_level d e l) ls)
unfolding new_level
put_tracked d e l ls none c s = tt
put_tracked d e l ls (some t) c (k, found, active) = elim (Bool-cases (tracks (some t) l)) [
  | inl hit ↦ (
    new_level d e l,
    rw (get-put (new_level d e l) t.level_id t.level_version ls) (
        ground (
          arith,
          hit,
          str_eq_iff t.level_id l.level_id,
          str_eq_iff l.level_id t.level_id,
          str_eq_iff t.level_version l.level_version,
          str_eq_iff l.level_version t.level_version,
        )),
    ground (arith, hit, c),
  )
  | inr miss ↦ (
    k,
    rw (get-put (new_level d e l) t.level_id t.level_version ls) (
        ground (
          arith,
          miss,
          found,
          str_eq_iff t.level_id l.level_id,
          str_eq_iff l.level_id t.level_id,
          str_eq_iff t.level_version l.level_version,
          str_eq_iff l.level_version t.level_version,
        )),
    active,
  )
]

write_level-IsSound :
    (d : Decimals) (e : CanonicalEvent) (l : LiquidityData) (v : View)
    → IsSound v
    → IsSound (write_level d e l v)
unfolding write_level
write_level-IsSound d e l v s =
    let v' = record v {
      liquidity_events = e ∷ v.liquidity_events;
      levels = put_level (new_level d e l) v.levels;
    } in
    let u = put_level-UniqueKeys (new_level d e l) v.levels s.0 in
    elim (Bool-cases (tracks v.tracked l && is_terminal l.lifecycle)) [
      | inl c ↦ rw c (release-IsSound (level_reached l.lifecycle) e v' v.tracked refl u)
      | inr c ↦ rw c (u, put_tracked d e l v.levels v.tracked c s.1)
    ]

step-IsSound :
    (d : Decimals) (e : CanonicalEvent) (p : Payload) (v w : View)
    → IsSound v
    → step_with d e p v ≡ ok w
    → IsSound w
unfolding step_with add_liquidity add_renko
step-IsSound d e (Payload.expansion x) v w s h =
    let priced = add_price d e x.market_price v in
    let p = add_price-IsSound d e x.market_price v s in
    elim (Bool-cases x.is_scanner) [
      | inl c ↦
          let k : record priced { scanners = record { event = e; expansion = x } ∷ priced.scanners }
              ≡ w =
            ground (arith, h, c) in
          subst IsSound k p
      | inr c ↦
          let k : reselect e (add_expansion e x priced) ≡ w = ground (arith, h, c) in
          subst IsSound k (reselect-IsSound e _ (add_expansion-IsSound e x priced p))
    ]
step-IsSound d e (Payload.liquidity l) v w s h =
    let priced = add_price d e (some l.market_price) v in
    let p = add_price-IsSound d e (some l.market_price) v s in
    let k : reselect e (write_level d e l priced) ≡ w = ground (arith, h) in
    subst IsSound k (reselect-IsSound e _ (write_level-IsSound d e l priced p))
step-IsSound d e (Payload.renko r) v w s h =
    let k : reselect e (add_renko e r v) ≡ w = ground (arith, h) in
    subst IsSound k (reselect-IsSound e (add_renko e r v) s)

fold-IsSound :
    (d : Decimals) (es : List CanonicalEvent) (v w : View)
    → IsSound v
    → fold d es v ≡ ok w
    → IsSound w
unfolding fold step
fold-IsSound d [] v w s h = let k : v ≡ w = ground (arith, h) in subst IsSound k s
fold-IsSound d (e ∷ es) v w s h =
    let (v', first, rest) = fold_cases d es w (step d e v) h in
    fold-IsSound d es v' w (step-IsSound d e e.payload v v' s first) rest

-- In the state that any events are replayed to: the tracked level, if there is one, is a level of the
-- state, its lifecycle is IDLE, APPROACH or HIT, and no two levels have one id and version.
pub rebuild-IsSound :
    (d : Decimals) (events : List CanonicalEvent) (w : View) → rebuild d events ≡ ok w → IsSound w
unfolding rebuild
rebuild-IsSound d events w h =
    fold-IsSound d (sort_events events) empty_view w (tt, tt)
      (checked-ok (fold d (sort_events events) empty_view) w h).0
