-- ===== src/ProjectA/Numeric/Order.antt =====
-- The order of the events, and their producer keys, through the sort of `_rebuild`.
use trading_ai_pipeline.Base.{
  ◌≡◌, refl, true, false, none, List, [], ◌∷◌, ◌++◌, str_eq_iff, arith, Bool-cases, inl, inr,
}
use trading_ai_pipeline.Base.Text.{codes}
use trading_ai_pipeline.Output.Stamp.TextOrder.{text_lt_asym}
use trading_ai_pipeline.ProjectA.Numeric.Events.{CanonicalEvent}
use trading_ai_pipeline.ProjectA.Numeric.Fold.{event_before, insert_event, sort_events}
use trading_ai_pipeline.ProjectA.Numeric.Ingest.{find_producer, same_producer}

-- No event comes before the one that stands in front of it.
abbrev pub IsSorted : List CanonicalEvent → Type 0
IsSorted [] = Unit {0}
IsSorted (a ∷ []) = Unit {0}
IsSorted (a ∷ b ∷ r) = (event_before b a ≡ false) × IsSorted (b ∷ r)

pub event_before_asym : (a b : CanonicalEvent) → event_before a b ≡ true → event_before b a ≡ false
unfolding event_before
event_before_asym a b h =
    ground (arith, text_lt_asym (codes a.canonical_event_id) (codes b.canonical_event_id))

insert_after :
    (e k : CanonicalEvent) (ks : List CanonicalEvent)
    → event_before e k ≡ false
    → IsSorted (k ∷ ks)
    → IsSorted (k ∷ insert_event e ks)
unfolding insert_event
insert_after e k [] h s = (h, tt)
insert_after e k (m ∷ ms) h s = elim (Bool-cases (event_before m e)) [
  | inl c ↦ rw c (s.0, insert_after e m ms (event_before_asym m e c) s.1)
  | inr c ↦ rw c (h, (c, s.1))
]

insert_event-IsSorted :
    (e : CanonicalEvent) (ks : List CanonicalEvent) → IsSorted ks → IsSorted (insert_event e ks)
unfolding insert_event
insert_event-IsSorted e [] s = tt
insert_event-IsSorted e (k ∷ ks) s = elim (Bool-cases (event_before k e)) [
  | inl c ↦ rw c (insert_after e k ks (event_before_asym k e c) s)
  | inr c ↦ rw c (c, s)
]

pub sort_events-IsSorted : (es : List CanonicalEvent) → IsSorted (sort_events es)
unfolding sort_events
sort_events-IsSorted [] = tt
sort_events-IsSorted (e ∷ es) = insert_event-IsSorted e (sort_events es) (sort_events-IsSorted es)

tail-IsSorted : (e : CanonicalEvent) (es : List CanonicalEvent) → IsSorted (e ∷ es) → IsSorted es
tail-IsSorted e [] s = tt
tail-IsSorted e (k ∷ ks) s = s.1

-- A sorted list is left as it is.
pub sort_events-sorted : (es : List CanonicalEvent) → IsSorted es → sort_events es ≡ es
unfolding sort_events insert_event
sort_events-sorted [] s = refl
sort_events-sorted (e ∷ []) s = refl
sort_events-sorted (e ∷ k ∷ ks) s = rw (sort_events-sorted (k ∷ ks) s.1) (ground (arith, s.0))

pub prefix-IsSorted : (xs ys : List CanonicalEvent) → IsSorted (xs ++ ys) → IsSorted xs
prefix-IsSorted [] ys s = tt
prefix-IsSorted (x ∷ []) ys s = tt
prefix-IsSorted (x ∷ y ∷ r) ys s = (s.0, prefix-IsSorted (y ∷ r) ys s.1)

-- No two events have one producer key.
abbrev pub Distinct : List CanonicalEvent → Type 0
Distinct [] = Unit {0}
Distinct (e ∷ es) = (find_producer e es ≡ none) × Distinct es

same_producer_sym : (a b : CanonicalEvent) → same_producer a b ≡ false → same_producer b a ≡ false
same_producer_sym a b h = ground (
  arith,
  str_eq_iff a.producer_id b.producer_id,
  str_eq_iff b.producer_id a.producer_id,
  str_eq_iff a.producer_revision b.producer_revision,
  str_eq_iff b.producer_revision a.producer_revision,
  str_eq_iff a.producer_event_id b.producer_event_id,
  str_eq_iff b.producer_event_id a.producer_event_id,
)

find-insert :
    (x e : CanonicalEvent) (ks : List CanonicalEvent)
    → same_producer e x ≡ false
    → find_producer x ks ≡ none
    → find_producer x (insert_event e ks) ≡ none
unfolding insert_event find_producer
find-insert x e [] h f = ground (arith, h)
find-insert x e (k ∷ ks) h f = ground (arith, h, f, find-insert x e ks)

insert-Distinct :
    (e : CanonicalEvent) (ks : List CanonicalEvent)
    → find_producer e ks ≡ none
    → Distinct ks
    → Distinct (insert_event e ks)
unfolding insert_event find_producer
insert-Distinct e [] f u = (refl, tt)
insert-Distinct e (k ∷ ks) f u =
    let apart : same_producer k e ≡ false = ground (arith, f) in
    elim (Bool-cases (event_before k e)) [
      | inl c ↦ rw c (
        find-insert k e ks (same_producer_sym k e apart) u.0,
        insert-Distinct e ks (ground (arith, f)) u.1,
      )
      | inr c ↦ rw c (f, u)
    ]

find-sort :
    (x : CanonicalEvent) (es : List CanonicalEvent)
    → find_producer x es ≡ none
    → find_producer x (sort_events es) ≡ none
unfolding sort_events find_producer
find-sort x [] f = refl
find-sort x (e ∷ es) f =
    find-insert x e (sort_events es) (ground (arith, f)) (find-sort x es (ground (arith, f)))

pub sort_events-Distinct : (es : List CanonicalEvent) → Distinct es → Distinct (sort_events es)
unfolding sort_events
sort_events-Distinct [] u = tt
sort_events-Distinct (e ∷ es) u =
    insert-Distinct e (sort_events es) (find-sort e es u.0) (sort_events-Distinct es u.1)

absent_later :
    (k e : CanonicalEvent) (ks rest : List CanonicalEvent)
    → find_producer k (ks ++ (e ∷ rest)) ≡ none
    → same_producer e k ≡ false
unfolding find_producer
absent_later k e [] rest f = ground (arith, f)
absent_later k e (m ∷ ms) rest f = absent_later k e ms rest (ground (arith, f))

-- An event of distinct keys is not found among those before it.
pub absent_before :
    (e : CanonicalEvent) (done rest : List CanonicalEvent)
    → Distinct (done ++ (e ∷ rest))
    → find_producer e done ≡ none
unfolding find_producer
absent_before e [] rest u = refl
absent_before e (k ∷ ks) rest u =
    ground
      (arith, same_producer_sym e k (absent_later k e ks rest u.0), absent_before e ks rest u.1)

find-snoc :
    (k e : CanonicalEvent) (ks : List CanonicalEvent)
    → same_producer e k ≡ false
    → find_producer k ks ≡ none
    → find_producer k (ks ++ (e ∷ [])) ≡ none
unfolding find_producer
find-snoc k e [] h f = ground (arith, h)
find-snoc k e (m ∷ ms) h f = ground (arith, h, f, find-snoc k e ms h)

pub snoc-Distinct :
    (e : CanonicalEvent) (ks : List CanonicalEvent)
    → find_producer e ks ≡ none
    → Distinct ks
    → Distinct (ks ++ (e ∷ []))
unfolding find_producer
snoc-Distinct e [] f u = (refl, tt)
snoc-Distinct e (k ∷ ks) f u =
    let apart : same_producer k e ≡ false = ground (arith, f) in
    (find-snoc k e ks (same_producer_sym k e apart) u.0, snoc-Distinct e ks (ground (arith, f)) u.1)
