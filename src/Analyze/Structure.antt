-- ===== src/Analyze/Structure.antt =====
-- analyze/structure_state.py: the zigzag of the significant swings, and the classification of one
-- time frame. The threshold `min_swing` is an argument, as in the source; the reason and the
-- rounding of the prices are left out.
pub mod Zigzag
use trading_ai_pipeline.Base.{
  ℕ, ◌+◌, ◌-◌, Bool, true, false, ◌&&◌, ◌||◌, Option, none, some, List, [], ◌∷◌, ◌++◌, leb, ltb,
  sort_by, if◌then◌else◌,
}
use trading_ai_pipeline.Analyze.Pivots.{Bar, Pivot, Pivots, detect_pivots}

pub data Kind : Type 0 where
  high low : Kind

pub record Swing : Type 0 where
  pub idx : ℕ
  pub kind : Kind
  pub price : ℕ
  pub time : ℕ

abbrev pub same_kind : Kind → Kind → Bool
same_kind high high = true
same_kind low low = true
same_kind _ _ = false

-- The price of p is more extreme than that of the last swing, which has its kind.
abbrev pub is_extreme : Swing → Swing → Bool
is_extreme p last = elim p.kind [ high ↦ ltb last.price p.price | low ↦ ltb p.price last.price ]

-- The body of the loop of `_zigzag`; the swings stand newest first.
unfoldable pub zigzag_step : ℕ → List Swing → Swing → List Swing
zigzag_step min_swing [] p = p ∷ []
zigzag_step min_swing (last ∷ swings) p =
    if same_kind p.kind last.kind
    then if is_extreme p last then p ∷ swings else last ∷ swings
    else if leb min_swing ((p.price - last.price) + (last.price - p.price))
    then p ∷ (last ∷ swings)
    else last ∷ swings

unfoldable pub zigzag_from : ℕ → List Swing → List Swing → List Swing
zigzag_from min_swing swings [] = swings
zigzag_from min_swing swings (p ∷ pivots) =
    zigzag_from min_swing (zigzag_step min_swing swings p) pivots

-- _zigzag, with the newest swing first.
unfoldable pub zigzag : ℕ → List Swing → List Swing
zigzag min_swing pivots = zigzag_from min_swing [] pivots

abbrev pub swing_of : Kind → Pivot → Swing
swing_of kind p = record { idx = p.idx; kind = kind; price = p.price; time = p.time }

unfoldable pub swings_of : Kind → List Pivot → List Swing
swings_of kind [] = []
swings_of kind (p ∷ pivots) = swing_of kind p ∷ swings_of kind pivots

pub data TrendState : Type 0 where
  uptrend downtrend unclear : TrendState

pub record Classification : Type 0 where
  pub state : TrendState
  pub sig_highs : List ℕ
  pub sig_lows : List ℕ

abbrev pub is_kind : Kind → Swing → Bool
is_kind kind s = same_kind s.kind kind

-- The prices of the swings of a kind, newest first.
unfoldable pub prices_of : Kind → List Swing → List ℕ
prices_of kind [] = []
prices_of kind (s ∷ swings) =
    let rest = prices_of kind swings in if is_kind kind s then s.price ∷ rest else rest

-- HH and HL make an uptrend, LH and LL a downtrend.
unfoldable pub trend_of : List ℕ → List ℕ → TrendState
trend_of (h1 ∷ h2 ∷ hs) (l1 ∷ l2 ∷ ls) =
    if ltb h2 h1 && ltb l2 l1
    then uptrend
    else if ltb h1 h2 && ltb l1 l2
    then downtrend
    else unclear
trend_of _ _ = unclear

-- `[-3:]` of the source, newest first.
abbrev pub last_three : List ℕ → List ℕ
last_three (a ∷ b ∷ c ∷ rest) = a ∷ b ∷ c ∷ []
last_three prices = prices

unfoldable pub classify_swings : List Swing → Classification
classify_swings zz =
    let highs = prices_of high zz in
    let lows = prices_of low zz in
    record { state = trend_of highs lows; sig_highs = last_three highs; sig_lows = last_three lows }

abbrev pub unclassified : Classification
unclassified = record { state = unclear; sig_highs = []; sig_lows = [] }

-- classify_hl_lh; `min_swing` is none or zero where there are too few bars.
unfoldable pub classify_hl_lh : List Bar → ℕ → Bool → Option ℕ → Classification
classify_hl_lh bars k strict min_swing = elim min_swing [
  | none ↦ unclassified
  | some threshold ↦
      if leb threshold 0
      then unclassified
      else let piv = detect_pivots bars k strict in
        let pts = sort_by Swing.idx (swings_of high piv.highs ++ swings_of low piv.lows) in
        classify_swings (zigzag threshold pts)
]
