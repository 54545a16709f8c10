-- ===== src/ProjectA/Numeric/Arrival.antt =====
-- The order in which the events arrive does not change what they are replayed to.
use mathlib.Core.List.Permᴰ.{nil, cons, swap, trans}
use mathlib.Core.List.{Permᴰ}
use mathlib.Core.Path.{subst}
use trading_ai_pipeline.Base.{
  ◌≡◌, refl, sym, ap, ◌∙◌, true, ◌||◌, List, [], ◌∷◌, arith, Bool-cases, inl, inr,
}
use trading_ai_pipeline.Base.Text.{codes}
use trading_ai_pipeline.Output.Stamp.TextOrder.{text_lt_trans}
use trading_ai_pipeline.ProjectA.Numeric.Events.{CanonicalEvent, Decimals}
use trading_ai_pipeline.ProjectA.Numeric.Fold.{event_before, insert_event, sort_events, rebuild}
use trading_ai_pipeline.ProjectA.Numeric.Ingest.{NumericState}
use trading_ai_pipeline.ProjectA.Numeric.Rollback.{IsReplay}
use trading_ai_pipeline.ProjectA.Numeric.Replay.{same_view}
use trading_ai_pipeline.ProjectA.Numeric.Order.{event_before_asym}

-- One of the two events comes before the other, by its time or by its id.
abbrev Ordered : CanonicalEvent → CanonicalEvent → Type 0
Ordered a b = (event_before a b || event_before b a) ≡ true

abbrev AllOrdered : CanonicalEvent → List CanonicalEvent → Type 0
AllOrdered e [] = Unit {0}
AllOrdered e (k ∷ ks) = Ordered e k × AllOrdered e ks

abbrev pub IsOrderable : List CanonicalEvent → Type 0
IsOrderable [] = Unit {0}
IsOrderable (e ∷ es) = AllOrdered e es × IsOrderable es

event_before_trans :
    (a b c : CanonicalEvent)
    → event_before a b ≡ true
    → event_before b c ≡ true
    → event_before a c ≡ true
unfolding event_before
event_before_trans a b c h k = ground (
  arith,
  text_lt_trans (codes a.canonical_event_id) (codes b.canonical_event_id)
      (codes c.canonical_event_id),
)

insert_two :
    (a b : CanonicalEvent) (ks : List CanonicalEvent)
    → event_before a b ≡ true
    → insert_event a (insert_event b ks) ≡ insert_event b (insert_event a ks)
unfolding insert_event
insert_two a b [] h = ground (arith, event_before_asym a b h)
insert_two a b (k ∷ ks) h = elim (Bool-cases (event_before k a)) [
  | inl c ↦
      let d = event_before_trans k a b c h in
      rw (d, c) (rw d (ap (λ l. k ∷ l) (insert_two a b ks h)))
  | inr c ↦ elim (Bool-cases (event_before k b)) [
    | inl n ↦ ground (arith, c, n)
    | inr n ↦ ground (arith, c, n, event_before_asym a b h)
  ]
]

insert_commutes :
    (a b : CanonicalEvent) (ks : List CanonicalEvent)
    → Ordered a b
    → insert_event a (insert_event b ks) ≡ insert_event b (insert_event a ks)
insert_commutes a b ks o = elim (Bool-cases (event_before a b)) [
  | inl c ↦ insert_two a b ks c
  | inr c ↦ sym (insert_two b a ks (ground (arith, o, c)))
]

AllOrdered-Permᴰ :
    (e : CanonicalEvent) {es fs : List CanonicalEvent}
    → Permᴰ es fs
    → AllOrdered e es
    → AllOrdered e fs
AllOrdered-Permᴰ e nil o = tt
AllOrdered-Permᴰ e (cons q p) o = (subst (Ordered e) q o.0, AllOrdered-Permᴰ e p o.1)
AllOrdered-Permᴰ e (swap q r) o = (subst (Ordered e) r o.1.0, (subst (Ordered e) q o.0, o.1.1))
AllOrdered-Permᴰ e (trans p q) o = AllOrdered-Permᴰ e q (AllOrdered-Permᴰ e p o)

Ordered-sym : (a b : CanonicalEvent) → Ordered a b → Ordered b a
Ordered-sym a b o = ground (arith, o)

IsOrderable-Permᴰ : {es fs : List CanonicalEvent} → Permᴰ es fs → IsOrderable es → IsOrderable fs
IsOrderable-Permᴰ nil o = tt
IsOrderable-Permᴰ (cons {l₂ = fs} q p) o =
    (subst (λ x. AllOrdered x fs) q (AllOrdered-Permᴰ _ p o.0), IsOrderable-Permᴰ p o.1)
IsOrderable-Permᴰ (swap {a} {b} {a' = a'} {l = l} q r) o = (
  (
    subst (Ordered a') q (subst (λ x. Ordered x a) r (Ordered-sym a b o.0.0)),
    subst (λ x. AllOrdered x l) r o.1.0,
  ),
  (subst (λ x. AllOrdered x l) q o.0.1, o.1.1),
)
IsOrderable-Permᴰ (trans p q) o = IsOrderable-Permᴰ q (IsOrderable-Permᴰ p o)

sort_events-Permᴰ :
    {es fs : List CanonicalEvent} → Permᴰ es fs → IsOrderable es → sort_events es ≡ sort_events fs
unfolding sort_events
sort_events-Permᴰ nil o = refl
sort_events-Permᴰ (cons {l₁ = es} {l₂ = fs} q p) o = rw (q, sort_events-Permᴰ p o.1) refl
sort_events-Permᴰ (swap {a} {b} {l = l} q r) o =
    rw (← q, ← r) (insert_commutes a b (sort_events l) o.0.0)
sort_events-Permᴰ (trans p q) o =
    sort_events-Permᴰ p o ∙ sort_events-Permᴰ q (IsOrderable-Permᴰ p o)

-- For two states that are the replay of their events, with the same events in two orders of arrival, of
-- every two of which one comes before the other by its time or its id: the views are equal.
pub arrival_order_free :
    (d : Decimals) (s t : NumericState)
    → IsReplay d s
    → IsReplay d t
    → Permᴰ s.events t.events
    → IsOrderable s.events
    → s.view ≡ t.view
unfolding rebuild
arrival_order_free d s t r q p o =
    let same : rebuild d s.events ≡ rebuild d t.events = rw (sort_events-Permᴰ p o, rebuild) refl in
    same_view (sym r ∙ same ∙ q)
