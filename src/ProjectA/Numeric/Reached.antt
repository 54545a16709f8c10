-- ===== src/ProjectA/Numeric/Reached.antt =====
-- The states that calls of NumericMarketState.ingest reach, and what a saved history takes from them.
use mathlib.Core.Path.{subst}
use trading_ai_pipeline.Base.{
  ◌≡◌, refl, sym, ap, ◌∙◌, none, some, List, [], ◌∷◌, ◌++◌, arith, Bool-cases, Option-cases, String,
  ◌⊎◌, inl, inr,
}
use trading_ai_pipeline.ProjectA.Numeric.Events.{CanonicalEvent, Decimals}
use trading_ai_pipeline.ProjectA.Numeric.View.{View, empty_view, Result, ok, err, NumericError}
use trading_ai_pipeline.ProjectA.Numeric.Fold.{
  fold, has_conflict, checked, rebuild, sort_events, insert_event, event_before,
}
use trading_ai_pipeline.ProjectA.Numeric.Ingest.{
  NumericState, IngestResult, empty_state, repeated, roll_back, ingest, accept, find_producer,
  Parser,
}
use trading_ai_pipeline.ProjectA.Numeric.Rollback.{IsReplay, ingest_rolls_back, ingest-IsReplay}
use trading_ai_pipeline.ProjectA.Numeric.Order.{Distinct, snoc-Distinct}

-- Every event is what its payload is parsed to.
abbrev pub AllParsed : Parser → List CanonicalEvent → Type 0
AllParsed parse [] = Unit {0}
AllParsed parse (e ∷ es) = (parse e.raw_payload ≡ some e) × AllParsed parse es

-- The states that calls of `ingest` reach: each takes the event that a payload is parsed to, which keeps
-- its payload, and returns or raises.
pub data Ingested (parse : Parser) (d : Decimals) : NumericState → Type 0 where
  fresh : Ingested parse d empty_state
  after :
      {s t : NumericState} {raw : String} {e : CanonicalEvent} {r : Result IngestResult}
      → Ingested parse d s
      → parse raw ≡ some e
      → e.raw_payload ≡ raw
      → ingest d s e ≡ (t, r)
      → Ingested parse d t

insert-AllParsed :
    (parse : Parser) (e : CanonicalEvent) (es : List CanonicalEvent)
    → parse e.raw_payload ≡ some e
    → AllParsed parse es
    → AllParsed parse (insert_event e es)
unfolding insert_event
insert-AllParsed parse e [] p a = (p, tt)
insert-AllParsed parse e (k ∷ ks) p a = elim (Bool-cases (event_before k e)) [
  | inl c ↦ rw c (a.0, insert-AllParsed parse e ks p a.1)
  | inr c ↦ rw c (p, a)
]

pub sort_events-AllParsed :
    (parse : Parser) (es : List CanonicalEvent)
    → AllParsed parse es
    → AllParsed parse (sort_events es)
unfolding sort_events
sort_events-AllParsed parse [] a = tt
sort_events-AllParsed parse (e ∷ es) a =
    insert-AllParsed parse e (sort_events es) a.0 (sort_events-AllParsed parse es a.1)

snoc-AllParsed :
    (parse : Parser) (e : CanonicalEvent) (es : List CanonicalEvent)
    → parse e.raw_payload ≡ some e
    → AllParsed parse es
    → AllParsed parse (es ++ (e ∷ []))
snoc-AllParsed parse e [] p a = (p, tt)
snoc-AllParsed parse e (k ∷ ks) p a = (a.0, snoc-AllParsed parse e ks p a.1)

roll_back-raises :
    (d : Decimals) (s t : NumericState) (x : NumericError) (r : IngestResult) (v : Result View)
    → rebuild d s.events ≡ v
    → roll_back d s x ≡ (t, ok r)
    → ⊥
unfolding roll_back
roll_back-raises d s t x r (ok v) k q = ground (arith, q, k)
roll_back-raises d s t x r (err y) k q = ground (arith, q, k)

accept-events :
    (d : Decimals) (s t : NumericState) (e : CanonicalEvent) (r : IngestResult) (v : Result View)
    → rebuild d (s.events ++ (e ∷ [])) ≡ v
    → accept d s e ≡ (t, ok r)
    → t.events ≡ s.events ++ (e ∷ [])
unfolding accept
accept-events d s t e r (ok v) k q = ground (arith, q, k)
accept-events d s t e r (err x) k q =
    absurd (roll_back-raises d s t x r _ refl (rw (k, accept) at q))

repeated-events :
    (s t : NumericState) (e k : CanonicalEvent) (r : IngestResult)
    → repeated s e k ≡ (t, ok r)
    → t.events ≡ s.events
unfolding repeated
repeated-events s t e k r q = ground (arith, q)

-- What a call that returns does to the events.
ingest-events :
    (d : Decimals) (s t : NumericState) (e : CanonicalEvent) (r : IngestResult)
    → ingest d s e ≡ (t, ok r)
    → (t.events ≡ s.events)
      ⊎ ((find_producer e s.events ≡ none) × (t.events ≡ s.events ++ (e ∷ [])))
unfolding ingest
ingest-events d s t e r q = elim (Option-cases (find_producer e s.events)) [
  | inr (k, old) ↦ inl (repeated-events s t e k r (rw (old, ingest) at q))
  | inl new ↦ inr (new, accept-events d s t e r _ refl (rw (new, ingest) at q))
]

-- What every state that is reached is: the replay of events of distinct producers, each of them what its
-- payload is parsed to.
abbrev Loadable : Parser → Decimals → NumericState → Type 0
Loadable parse d s = IsReplay d s × Distinct s.events × AllParsed parse s.events

call-Loadable :
    (parse : Parser) (d : Decimals) (s t : NumericState) (e : CanonicalEvent)
    (r : Result IngestResult)
    → parse e.raw_payload ≡ some e
    → Loadable parse d s
    → ingest d s e ≡ (t, r)
    → Loadable parse d t
call-Loadable parse d s t e (err x) p l q =
    subst (Loadable parse d) (sym (ingest_rolls_back d s t e x l.0 q)) l
call-Loadable parse d s t e (ok r) p (replay, distinct, parsed) q =
    let replayed = ingest-IsReplay d s t e r replay q in
    elim (ingest-events d s t e r q) [
      | inl same ↦
          (replayed, subst Distinct (sym same) distinct, subst (AllParsed parse) (sym same) parsed)
      | inr (new, added) ↦ (
        replayed,
        subst Distinct (sym added) (snoc-Distinct e s.events new distinct),
        subst (AllParsed parse) (sym added) (snoc-AllParsed parse e s.events p parsed),
      )
    ]

pub nothing_yet : (d : Decimals) → rebuild d [] ≡ ok empty_view
unfolding rebuild checked fold sort_events has_conflict
nothing_yet d = refl

pub Ingested-Loadable :
    (parse : Parser) (d : Decimals) (s : NumericState) → Ingested parse d s → Loadable parse d s
Ingested-Loadable parse d s fresh = (nothing_yet d, tt, tt)
Ingested-Loadable parse d _ (after {s} {t} {raw} {e} {r} run read keeps q) =
    call-Loadable parse d s t e r (ap parse keeps ∙ read) (Ingested-Loadable parse d s run) q
