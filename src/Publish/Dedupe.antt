-- ===== src/Publish/Dedupe.antt =====
-- publish/dedupe.py. Prices are natural numbers of a common unit; the text of the reason is left out.
use trading_ai_pipeline.Base.{
  ℕ, ◌≡◌, ◌↔◌, refl, ap, Bool, true, false, not, ◌&&◌, Option, none, some, List, [], ◌∷◌, ◌++◌,
  Memᴰ, min, max, leb, ◌==◌, is_empty, arith, if◌then◌else◌,
}
use trading_ai_pipeline.Base.Text.{Text, text_eq, text_eq_sound, text_eq_refl}

-- The features that are compared; a missing key is none.
pub record Features : Type 0 where
  pub action : Option Text
  pub grade : Option Text
  pub trigger : Option ℕ
  pub has_ant : Bool
  pub alerts : List ℕ

pub data Fired : Type 0 where
  first action_changed grade_changed trigger_changed ant_changed : Fired
  alert_touched : ℕ → Fired

pub record PushDecision : Type 0 where
  pub push : Bool
  pub fired : List Fired

-- The first alert between two prices.
unfoldable pub first_between : ℕ → ℕ → List ℕ → Option ℕ
first_between lo hi [] = none
first_between lo hi (a ∷ alerts) =
    let rest = first_between lo hi alerts in if leb lo a && leb a hi then some a else rest

-- _alert_crossed
unfoldable pub alert_crossed : List ℕ → Option ℕ → Option ℕ → Option ℕ
alert_crossed alerts (some prev_price) (some cur_price) =
    first_between (min prev_price cur_price) (max prev_price cur_price) alerts
alert_crossed alerts _ _ = none

abbrev pub same_text : Option Text → Option Text → Bool
same_text none none = true
same_text (some x) (some y) = text_eq x y
same_text _ _ = false

abbrev pub same_price : Option ℕ → Option ℕ → Bool
same_price none none = true
same_price (some x) (some y) = x == y
same_price _ _ = false

abbrev pub same_flag : Bool → Bool → Bool
same_flag true b = b
same_flag false b = not b

unfoldable pub changes : Features → Features → Option ℕ → List Fired
changes prev cur crossed =
    (if same_text cur.action prev.action then [] else action_changed ∷ [])
    ++ ((if same_text cur.grade prev.grade then [] else grade_changed ∷ [])
        ++ ((if same_price cur.trigger prev.trigger then [] else trigger_changed ∷ [])
            ++ ((if same_flag cur.has_ant prev.has_ant then [] else ant_changed ∷ [])
                ++ elim crossed [ none ↦ [] | some a ↦ alert_touched a ∷ [] ])))

unfoldable pub should_push : Option Features → Features → Option ℕ → Option ℕ → PushDecision
should_push none cur prev_price cur_price = record { push = true; fired = first ∷ [] }
should_push (some prev) cur prev_price cur_price =
    let fired = changes prev cur (alert_crossed prev.alerts prev_price cur_price) in
    record { push = not (is_empty fired); fired = fired }

same_text_lem : (x y : Option Text) → (same_text x y ≡ true) ↔ (x ≡ y)
same_text_lem none none = (λ h. refl, λ h. refl)
same_text_lem none (some y) = (λ h. ground arith, λ h. ground arith)
same_text_lem (some x) none = (λ h. ground arith, λ h. ground arith)
same_text_lem (some x) (some y) =
    (λ h. ap some (text_eq_sound x y h), λ h. let e : x ≡ y = ground arith in rw e (text_eq_refl y))

same_price_lem : (x y : Option ℕ) → (same_price x y ≡ true) ↔ (x ≡ y)
same_price_lem x y = (ground arith, ground arith)

first_between-none :
    (lo hi : ℕ) (alerts : List ℕ) (a : ℕ)
    → first_between lo hi alerts ≡ none
    → Memᴰ a alerts
    → leb lo a && leb a hi ≡ false
unfolding first_between
first_between-none lo hi [] a h m = elim m [ ]
first_between-none lo hi (b ∷ alerts) a h (Memᴰ.head e) = let same : a ≡ b = e in ground arith
first_between-none lo hi (b ∷ alerts) a h (Memᴰ.tail m) =
    first_between-none lo hi alerts a (ground arith) m

first_between_reached :
    (lo hi : ℕ) (alerts : List ℕ)
    → ((a : ℕ) → Memᴰ a alerts → leb lo a && leb a hi ≡ false)
    → first_between lo hi alerts ≡ none
unfolding first_between
first_between_reached lo hi [] h = refl
first_between_reached lo hi (b ∷ alerts) h =
    ground
      (arith, h b (Memᴰ.head refl), first_between_reached lo hi alerts (λ a m. h a (Memᴰ.tail m)))

-- After a first push, a call is held back exactly when its action, its grade, its trigger and
-- whether there is an ANT plan are those of the last pushed call, and no alert of that call lies
-- between the price of the last cycle and the price now, these included.
pub held_back_iff :
    (prev cur : Features) (p q : ℕ)
    → ((should_push (some prev) cur (some p) (some q)).push ≡ false) ↔ (
        (cur.action ≡ prev.action)
        × (cur.grade ≡ prev.grade)
        × (cur.trigger ≡ prev.trigger)
        × (cur.has_ant ≡ prev.has_ant)
        × ((a : ℕ) → Memᴰ a prev.alerts → leb (min p q) a && leb a (max p q) ≡ false))
unfolding should_push changes alert_crossed
held_back_iff prev cur p q = (
  λ h. (
    (same_text_lem cur.action prev.action).0 (ground arith),
    (same_text_lem cur.grade prev.grade).0 (ground arith),
    (same_price_lem cur.trigger prev.trigger).0 (ground arith),
    ground arith,
    λ a m. first_between-none (min p q) (max p q) prev.alerts a (ground arith) m,
  ),
  λ (a, g, t, n, alerts).
      let a' = (same_text_lem cur.action prev.action).1 a in
      let g' = (same_text_lem cur.grade prev.grade).1 g in
      let t' = (same_price_lem cur.trigger prev.trigger).1 t in
      let none_ = first_between_reached (min p q) (max p q) prev.alerts alerts in
      rw (a', g', t', n, none_) (ground arith),
)
