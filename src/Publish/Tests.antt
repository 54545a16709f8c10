-- ===== src/Publish/Tests.antt =====
-- A call that is held back.
use trading_ai_pipeline.Base.{ℕ, ◌≡◌, ◌↔◌, false, ◌&&◌, some, [], ◌∷◌, Memᴰ, min, max, leb}
use trading_ai_pipeline.Base.Text.{codes}
use trading_ai_pipeline.Publish.Dedupe.{Features, should_push, held_back_iff}

abbrev pushed : Features
pushed = record {
  action = some (codes "WAIT");
  grade = some (codes "B+");
  trigger = some 4010;
  has_ant = false;
  alerts = 4030 ∷ [];
}

held_back_iff_example :
    ((should_push (some pushed) pushed (some 4000) (some 4020)).push ≡ false) ↔ (
      (pushed.action ≡ pushed.action)
      × (pushed.grade ≡ pushed.grade)
      × (pushed.trigger ≡ pushed.trigger)
      × (pushed.has_ant ≡ pushed.has_ant)
      × ((a : ℕ) → Memᴰ a (4030 ∷ []) → leb (min 4000 4020) a && leb a (max 4000 4020) ≡ false))
held_back_iff_example = held_back_iff pushed pushed 4000 4020
