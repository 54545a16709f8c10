-- ===== src/Ingest/Trigger/Mrf/Pairs.antt =====
-- What an MRF wake rests on.
use trading_ai_pipeline.Base.{
  ℕ, ◌≡◌, ◌⊎◌, String, true, false, Option, some, List, Memᴰ, any-select, none-select, arith,
  Option-cases, inl, inr,
}
use trading_ai_pipeline.Base.Text.{Text}
use trading_ai_pipeline.Ingest.Trigger.{
  Raw, AlertEvent, Row, says, says_other, is_within, within, mrf_window_min, mrf_cooldown_min,
  mrf_veto_min,
}
use trading_ai_pipeline.Ingest.Trigger.Mrf.{
  Fade, fade_dir, fades, any_fade, vetoes, mrf_vetoed, mrf_in_cooldown, MrfDecision,
  mrf_fade_decision, mrf_decision,
}

-- A row that completes a pair: an alert of the engine, with the fade direction, of the last half
-- hour.
pub record IsPartner (now : ℕ) (recent : List Row) (engine : String) (fade : Fade) : Type 0 where
  pub row : Row
  pub among : Memᴰ row recent
  pub in_time : is_within now mrf_window_min row ≡ true
  pub fading : fades engine fade row ≡ true

any_fade-IsPartner :
    (now : ℕ) (recent : List Row) (engine : String) (fade : Fade)
    → any_fade (within now recent mrf_window_min) engine fade ≡ true
    → IsPartner now recent engine fade
unfolding any_fade within
any_fade-IsPartner now recent engine fade h =
    let (r, m, t, f) = any-select (fades engine fade) (is_within now mrf_window_min) recent h in
    record { row = r; among = m; in_time = t; fading = f }

-- The engine of an alert with a fade direction that is not MACD's is EXP or LIQ.
fade_dir-engine :
    (engine event dir : Option Text) (raw : Raw) (fade : Fade)
    → fade_dir engine event dir raw ≡ some fade
    → says engine "MACD" ≡ false
    → (says engine "EXP" ≡ true) ⊎ (says engine "LIQ" ≡ true)
unfolding fade_dir
fade_dir-engine engine event dir raw fade h m = ground arith

module _ (now : ℕ) (event : AlertEvent) (recent : List Row) (fade : Fade) where
  mrf_fade_decision-wake :
      (mrf_fade_decision now event recent fade).wake ≡ true
      → ((says event.engine "EXP" ≡ true)
          ⊎ (any_fade (within now recent mrf_window_min) "EXP" fade ≡ true))
        × ((says event.engine "LIQ" ≡ true)
            ⊎ (any_fade (within now recent mrf_window_min) "LIQ" fade ≡ true))
        × (mrf_vetoed now fade recent ≡ false)
        × (mrf_in_cooldown now fade recent ≡ false)
  unfolding mrf_fade_decision
  mrf_fade_decision-wake h = (ground arith, ground arith, ground arith, ground arith)

  find-IsPartner :
      (says event.engine "EXP" ≡ true) ⊎ (says event.engine "LIQ" ≡ true)
      → (mrf_fade_decision now event recent fade).wake ≡ true
      → ((says event.engine "EXP" ≡ true) × IsPartner now recent "LIQ" fade)
        ⊎ ((says event.engine "LIQ" ≡ true) × IsPartner now recent "EXP" fade)
  find-IsPartner (inl exp) h =
      let (x, y, v, c) = mrf_fade_decision-wake h in
      elim y [
        | inl liq ↦ absurd (ground (arith, says_other event.engine "EXP" "LIQ" exp))
        | inr found ↦ inl (exp, any_fade-IsPartner now recent "LIQ" fade found)
      ]
  find-IsPartner (inr liq) h =
      let (x, y, v, c) = mrf_fade_decision-wake h in
      elim x [
        | inl exp ↦ absurd (ground (arith, says_other event.engine "EXP" "LIQ" exp))
        | inr found ↦ inr (liq, any_fade-IsPartner now recent "EXP" fade found)
      ]

mrf_decision-wake :
    (now : ℕ) (event : AlertEvent) (recent : List Row) (d : MrfDecision)
    → mrf_decision now event recent ≡ some d
    → d.wake ≡ true
    → (fade : Fade) × (fade_dir event.engine event.event event.dir event.raw ≡ some fade)
      × (says event.engine "MACD" ≡ false)
      × (d ≡ mrf_fade_decision now event recent fade)
unfolding mrf_decision
mrf_decision-wake now event recent d h w =
    elim (Option-cases (fade_dir event.engine event.event event.dir event.raw)) [
      | inl missing ↦ absurd (ground arith)
      | inr (fade, e) ↦ (fade, e, ground arith, ground arith)
    ]

-- When the MRF rule wakes, the alert has a fade direction and is an EXP alert or a LIQ alert, and an
-- alert of the other of these two engines with the same fade direction stands among the alerts of
-- the last 30 minutes; and no EXP alert TOO_LONG of the last 15 minutes vetoes the direction.
pub mrf_wake_paired :
    (now : ℕ) (event : AlertEvent) (recent : List Row) (d : MrfDecision)
    → mrf_decision now event recent ≡ some d
    → d.wake ≡ true
    → (fade : Fade) × (fade_dir event.engine event.event event.dir event.raw ≡ some fade)
      × (((says event.engine "EXP" ≡ true) × IsPartner now recent "LIQ" fade)
          ⊎ ((says event.engine "LIQ" ≡ true) × IsPartner now recent "EXP" fade))
      × ((r : Row) → Memᴰ r recent → is_within now mrf_veto_min r ≡ true → vetoes fade r ≡ false)
mrf_wake_paired now event recent d h w =
    let (fade, e, macd, same) = mrf_decision-wake now event recent d h w in
    let woke : (mrf_fade_decision now event recent fade).wake ≡ true = ground arith in
    let (x, y, v, c) = mrf_fade_decision-wake now event recent fade woke in
    (
      fade,
      e,
      find-IsPartner now event recent fade
          (fade_dir-engine event.engine event.event event.dir event.raw fade e macd) woke,
      λ r m t.
          none-select (vetoes fade) (is_within now mrf_veto_min) recent r
            (unfold mrf_vetoed within in v) m t,
    )

-- A fade direction whose pair stands among the alerts of the last 30 minutes, with one of its
-- alerts in the last 3 minutes, does not wake again: the rule decides, and decides against it.
pub mrf_no_repeat :
    (now : ℕ) (event : AlertEvent) (recent : List Row) (d : MrfDecision) (fade : Fade)
    → mrf_decision now event recent ≡ some d
    → fade_dir event.engine event.event event.dir event.raw ≡ some fade
    → any_fade (within now recent mrf_window_min) "EXP" fade ≡ true
    → any_fade (within now recent mrf_window_min) "LIQ" fade ≡ true
    → (any_fade (within now recent mrf_cooldown_min) "EXP" fade ≡ true)
      ⊎ (any_fade (within now recent mrf_cooldown_min) "LIQ" fade ≡ true)
    → d.wake ≡ false
unfolding mrf_decision mrf_fade_decision mrf_in_cooldown
mrf_no_repeat now event recent d fade h e exp liq recently = ground arith
