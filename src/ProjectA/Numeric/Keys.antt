-- ===== src/ProjectA/Numeric/Keys.antt =====
-- The levels as a dictionary: one level for each key.
use trading_ai_pipeline.Base.{
  ◌≡◌, ◌≢◌, refl, String, none, some, List, [], ◌∷◌, Memᴰ, str_eq_iff, if◌then◌else◌, arith,
  Bool-cases, inl, inr,
}
use trading_ai_pipeline.ProjectA.Numeric.Events.{LiquidityLevel}
use trading_ai_pipeline.ProjectA.Numeric.View.{same_key, get_level, put_level}

pub get-put :
    (l : LiquidityLevel) (id version : String) (ls : List LiquidityLevel)
    → get_level id version (put_level l ls)
      ≡ (if same_key l id version then some l else get_level id version ls)
unfolding get_level put_level
get-put l id version [] = refl
get-put l id version (k ∷ ks) = ground (
  arith,
  get-put l id version ks,
  str_eq_iff k.level_id l.level_id,
  str_eq_iff k.level_version l.level_version,
  str_eq_iff k.level_id id,
  str_eq_iff k.level_version version,
  str_eq_iff l.level_id id,
  str_eq_iff l.level_version version,
)

-- No two levels have one key.
abbrev pub UniqueKeys : List LiquidityLevel → Type 0
UniqueKeys [] = Unit {0}
UniqueKeys (l ∷ ls) = (get_level l.level_id l.level_version ls ≡ none) × UniqueKeys ls

pub put_level-UniqueKeys :
    (l : LiquidityLevel) (ls : List LiquidityLevel) → UniqueKeys ls → UniqueKeys (put_level l ls)
unfolding put_level get_level
put_level-UniqueKeys l [] u = (refl, tt)
put_level-UniqueKeys l (k ∷ ks) u = elim (Bool-cases (same_key k l.level_id l.level_version)) [
  | inl c ↦
      let i : k.level_id ≡ l.level_id = ground (arith, c, str_eq_iff k.level_id l.level_id) in
      let v : k.level_version ≡ l.level_version =
        ground (arith, c, str_eq_iff k.level_version l.level_version) in
      rw c (rw (← i, ← v) (u.0), u.1)
  | inr c ↦ rw c (
    rw (get-put l k.level_id k.level_version ks) (
        ground (
          arith,
          c,
          u.0,
          str_eq_iff k.level_id l.level_id,
          str_eq_iff l.level_id k.level_id,
          str_eq_iff k.level_version l.level_version,
          str_eq_iff l.level_version k.level_version,
        )),
    put_level-UniqueKeys l ks u.1,
  )
]

absent :
    (l : LiquidityLevel) (ls : List LiquidityLevel)
    → Memᴰ l ls
    → get_level l.level_id l.level_version ls ≢ none
unfolding get_level
absent l [] m e = elim m [ ]
absent l (k ∷ ks) (Memᴰ.head p) e =
    let q : l ≡ k = p in
    ground
      (arith, q, e, str_eq_iff l.level_id l.level_id, str_eq_iff l.level_version l.level_version)
absent l (k ∷ ks) (Memᴰ.tail m) e = absent l ks m (ground (arith, e))

-- A level of the dictionary is the one that its key finds.
pub get-own :
    (l : LiquidityLevel) (ls : List LiquidityLevel)
    → UniqueKeys ls
    → Memᴰ l ls
    → get_level l.level_id l.level_version ls ≡ some l
unfolding get_level
get-own l [] u m = elim m [ ]
get-own l (k ∷ ks) u (Memᴰ.head p) =
    let q : l ≡ k = p in
    ground (arith, q, str_eq_iff l.level_id l.level_id, str_eq_iff l.level_version l.level_version)
get-own l (k ∷ ks) u (Memᴰ.tail m) = elim (Bool-cases (same_key k l.level_id l.level_version)) [
  | inr c ↦ rw c (get-own l ks u.1 m)
  | inl c ↦
      let i : k.level_id ≡ l.level_id = ground (arith, c, str_eq_iff k.level_id l.level_id) in
      let v : k.level_version ≡ l.level_version =
        ground (arith, c, str_eq_iff k.level_version l.level_version) in
      absurd (absent l ks m (rw (← i, ← v) (u.0)))
]
