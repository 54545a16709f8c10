-- ===== src/ProjectA/Numeric/Select.antt =====
-- The choice of the level to track.
use trading_ai_pipeline.Base.{
  ℕ, Bool, true, false, ◌&&◌, ltb, ◌==◌, Option, none, some, List, [], ◌∷◌, select, is_some,
  if◌then◌else◌,
}
use trading_ai_pipeline.Base.Search.{first_by}
use trading_ai_pipeline.Base.Text.{codes}
use trading_ai_pipeline.Output.Stamp.{text_lt}
use trading_ai_pipeline.ProjectA.Numeric.Events.{
  Side, ask, bid, Direction, Freshness, Lifecycle, Grade, Zone, near_touch, far, DistanceStatus,
  LiquidityLevel,
}
use trading_ai_pipeline.ProjectA.Numeric.View.{Selection, ExpansionEvent, View}

abbrev pub is_fresh : Freshness → Bool
is_fresh Freshness.fresh = true
is_fresh _ = false

-- _ACTIVE_LIFECYCLES
abbrev pub is_active : Lifecycle → Bool
is_active Lifecycle.idle = true
is_active Lifecycle.approach = true
is_active Lifecycle.hit = true
is_active _ = false

-- _GRADE_RANK
abbrev pub grade_rank : Grade → Option ℕ
grade_rank Grade.prime = some 0
grade_rank Grade.valid = some 1
grade_rank Grade.other_grade = none

-- _ZONE_RANK
abbrev pub zone_rank : Zone → ℕ
zone_rank near_touch = 0
zone_rank Zone.approach = 1
zone_rank far = 2

abbrev pub same_side : Side → Side → Bool
same_side ask ask = true
same_side bid bid = true
same_side _ _ = false

abbrev pub is_available : DistanceStatus → Bool
is_available DistanceStatus.available = true
is_available _ = false

-- "ASK" if story.data["direction"] == "UP" else "BID"
abbrev pub expected_side : Direction → Side
expected_side Direction.up = ask
expected_side _ = bid

unfoldable pub is_candidate : Side → LiquidityLevel → Bool
is_candidate side l =
    same_side l.side side
    && is_some (grade_rank l.grade)
    && is_active l.lifecycle
    && l.confirmed
    && is_fresh l.freshness_status
    && is_available l.distance.status
    && is_some l.distance.distance_zone

abbrev or_zero : Option ℕ → ℕ
or_zero none = 0
or_zero (some n) = n

abbrev rank_of_zone : Option Zone → ℕ
rank_of_zone none = 0
rank_of_zone (some z) = zone_rank z

abbrev rank_of_grade : Grade → ℕ
rank_of_grade g = or_zero (grade_rank g)

-- The order of tuples: the first pair of different numbers decides.
abbrev pub lex : ℕ → ℕ → Bool → Bool
lex a b rest = if a == b then rest else ltb a b

-- _selection_sort_key(l) < _selection_sort_key(k), for candidates, which have a zone and a distance.
unfoldable pub ranks_before : LiquidityLevel → LiquidityLevel → Bool
ranks_before l k =
    lex (rank_of_zone l.distance.distance_zone) (rank_of_zone k.distance.distance_zone) (
      lex (rank_of_grade l.grade) (rank_of_grade k.grade) (
        lex k.mtf_confluence l.mtf_confluence (
          lex (or_zero l.distance.distance_atr) (or_zero k.distance.distance_atr) (
            lex l.touch_count k.touch_count (
              lex k.created_at_source l.created_at_source
                (text_lt (codes l.level_id) (codes k.level_id)))))))

-- candidates.sort(key=_selection_sort_key); candidates[0], where equal keys keep their order.
unfoldable pub best : List LiquidityLevel → Option LiquidityLevel
best = first_by ranks_before

abbrev pub is_story : ExpansionEvent → Bool
is_story x = x.event.confirmed && is_fresh x.event.freshness_status

-- next(item for item in reversed(expansions) if …)
unfoldable pub latest_story : List ExpansionEvent → Option ExpansionEvent
latest_story [] = none
latest_story (x ∷ xs) = if is_story x then some x else latest_story xs

abbrev pub selection_audit_tuple : LiquidityLevel → Selection
selection_audit_tuple l = record {
  distance_zone = l.distance.distance_zone;
  grade = l.grade;
  mtf_confluence = l.mtf_confluence;
  distance_atr = l.distance.distance_atr;
  touch_count = l.touch_count;
  created_at_source = l.created_at_source;
  level_id = l.level_id;
}

abbrev pub is_far : Option Zone → Bool
is_far (some far) = true
is_far _ = false

-- The level to track after an event, where none is tracked.
unfoldable pub chosen_level : View → Option LiquidityLevel
chosen_level v = elim (latest_story v.expansions) [
  | none ↦ none
  | some story ↦
      elim (best (select (is_candidate (expected_side story.expansion.direction)) v.levels)) [
        | none ↦ none
        | some l ↦ if is_far l.distance.distance_zone then none else some l
      ]
]
