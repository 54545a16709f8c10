-- ===== src/ProjectA/Numeric/Rollback.antt =====
-- The state is always the replay of its events: an event that is refused leaves it as it was.
use mathlib.Core.Path.{subst}
use trading_ai_pipeline.Base.{
  ◌≡◌, refl, sym, true, false, [], ◌∷◌, ◌++◌, str_eq, Option-cases, Bool-cases, inl, inr,
}
use trading_ai_pipeline.ProjectA.Numeric.Events.{CanonicalEvent, Decimals}
use trading_ai_pipeline.ProjectA.Numeric.View.{
  View, Result, ok, err, NumericError, event_id_conflict,
}
use trading_ai_pipeline.ProjectA.Numeric.Fold.{rebuild}
use trading_ai_pipeline.ProjectA.Numeric.Ingest.{
  NumericState, IngestResult, Outcome, repeated, roll_back, accept, ingest, find_producer,
}

-- The view is what `_rebuild` computes from the events.
abbrev pub IsReplay : Decimals → NumericState → Type 0
IsReplay d s = rebuild d s.events ≡ ok s.view

-- A call that raises leaves the state as it was, and one that returns leaves a replay.
abbrev Safe : Decimals → NumericState → Outcome → Type 0
Safe d s (t, ok r) = IsReplay d t
Safe d s (t, err x) = t ≡ s

by_result : (d : Decimals) (s : NumericState) {o q : Outcome} → o ≡ q → Safe d s q → Safe d s o
by_result d s e safe = subst (Safe d s) (sym e) safe

rolled_back :
    (d : Decimals) (s : NumericState) (x : NumericError) → IsReplay d s → Safe d s (roll_back d s x)
unfolding roll_back
rolled_back d s x r =
    let e : roll_back d s x ≡ (s, err x) = rw (r, roll_back) in by_result d s e refl

accepted :
    (d : Decimals) (s : NumericState) (e : CanonicalEvent) (r : Result View)
    → IsReplay d s
    → rebuild d (s.events ++ (e ∷ [])) ≡ r
    → Safe d s (accept d s e)
unfolding accept
accepted d s e (ok v) p q =
    let k : accept d s e ≡ (
      record { events = s.events ++ (e ∷ []); view = v },
      ok (record { accepted = true; duplicate = false; event = e }),
    ) =
      rw (q, accept) in
    by_result d s k q
accepted d s e (err x) p q =
    let k : accept d s e ≡ roll_back d s x = rw (q, accept) in by_result d s k (rolled_back d s x p)

repeated_safe :
    (d : Decimals) (s : NumericState) (e k : CanonicalEvent)
    → IsReplay d s
    → Safe d s (repeated s e k)
unfolding repeated
repeated_safe d s e k p =
    elim (Bool-cases (str_eq k.canonical_payload_sha256 e.canonical_payload_sha256)) [
      | inl same ↦
          let q : repeated s e k
              ≡ (s, ok (record { accepted = false; duplicate = true; event = k })) =
            rw same in
          by_result d s q p
      | inr differ ↦
          let q : repeated s e k ≡ (s, err event_id_conflict) = rw differ in by_result d s q refl
    ]

ingest-Safe :
    (d : Decimals) (s : NumericState) (e : CanonicalEvent) → IsReplay d s → Safe d s (ingest d s e)
unfolding ingest
ingest-Safe d s e p = elim (Option-cases (find_producer e s.events)) [
  | inl new ↦
      let q : ingest d s e ≡ accept d s e = rw (new, ingest) in
      by_result d s q (accepted d s e _ p refl)
  | inr (k, old) ↦
      let q : ingest d s e ≡ repeated s e k = rw (old, ingest) in
      by_result d s q (repeated_safe d s e k p)
]

-- From a state that is the replay of its events: a call of `ingest` that raises leaves the state as it
-- was.
pub ingest_rolls_back :
    (d : Decimals) (s t : NumericState) (e : CanonicalEvent) (x : NumericError)
    → IsReplay d s
    → ingest d s e ≡ (t, err x)
    → t ≡ s
ingest_rolls_back d s t e x p q = subst (Safe d s) q (ingest-Safe d s e p)

-- A call that returns leaves a state that is the replay of its events.
pub ingest-IsReplay :
    (d : Decimals) (s t : NumericState) (e : CanonicalEvent) (r : IngestResult)
    → IsReplay d s
    → ingest d s e ≡ (t, ok r)
    → IsReplay d t
ingest-IsReplay d s t e r p q = subst (Safe d s) q (ingest-Safe d s e p)
