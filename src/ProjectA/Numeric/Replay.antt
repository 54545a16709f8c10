-- ===== src/ProjectA/Numeric/Replay.antt =====
-- A history that is saved and loaded again gives the state that was saved.
use mathlib.Core.List.{append-nil, append_assoc}
use mathlib.Core.Path.{subst}
use trading_ai_pipeline.Base.{
  ◌≡◌, refl, sym, ap, ◌∙◌, true, false, none, some, List, [], ◌∷◌, ◌++◌, map, arith, Bool-cases,
  String, inl, inr,
}
use trading_ai_pipeline.ProjectA.Numeric.Events.{CanonicalEvent, Decimals}
use trading_ai_pipeline.ProjectA.Numeric.View.{View, empty_view, Result, ok, err}
use trading_ai_pipeline.ProjectA.Numeric.Fold.{
  step, fold, has_conflict, checked, rebuild, sort_events,
}
use trading_ai_pipeline.ProjectA.Numeric.Ingest.{
  NumericState, IngestResult, ingest, accept, find_producer, Codec, Parser, read_line, save_history,
  load_from, load_history,
}
use trading_ai_pipeline.ProjectA.Numeric.Order.{
  IsSorted, sort_events-IsSorted, sort_events-sorted, prefix-IsSorted, Distinct,
  sort_events-Distinct, absent_before,
}
use trading_ai_pipeline.ProjectA.Numeric.Scanners.{Grows-no_conflict, step-Grows}
use trading_ai_pipeline.ProjectA.Numeric.Reached.{
  AllParsed, Ingested, sort_events-AllParsed, nothing_yet, Ingested-Loadable,
}

pub fold_cases :
    (d : Decimals) (es : List CanonicalEvent) (w : View) (r : Result View)
    → (elim r [ ok v' ↦ fold d es v' | err x ↦ err x ]) ≡ ok w
    → (v' : View) × (r ≡ ok v') × (fold d es v' ≡ ok w)
fold_cases d es w (ok v') e = (v', refl, e)
fold_cases d es w (err x) e = absurd (ground arith)

fold_cons :
    (d : Decimals) (x : CanonicalEvent) (xs : List CanonicalEvent) (v v' u : View)
    → step d x v ≡ ok v'
    → fold d xs v' ≡ ok u
    → fold d (x ∷ xs) v ≡ ok u
unfolding fold
fold_cons d x xs v v' u first rest = rw (first, fold) rest

fold-append :
    (d : Decimals) (xs ys : List CanonicalEvent) (v w : View)
    → fold d (xs ++ ys) v ≡ ok w
    → (u : View) × (fold d xs v ≡ ok u) × (fold d ys u ≡ ok w)
unfolding fold
fold-append d [] ys v w e = (v, refl, e)
fold-append d (x ∷ xs) ys v w e =
    let (v', first, rest) = fold_cases d (xs ++ ys) w (step d x v) e in
    let (u, front, back) = fold-append d xs ys v' w rest in
    (u, fold_cons d x xs v v' u first front, back)

fold-no_conflict :
    (d : Decimals) (es : List CanonicalEvent) (v w : View)
    → fold d es v ≡ ok w
    → has_conflict w.scanners ≡ false
    → has_conflict v.scanners ≡ false
unfolding fold step
fold-no_conflict d [] v w e h = let k : v ≡ w = ground (arith, e) in rw k h
fold-no_conflict d (x ∷ xs) v w e h =
    let (v', first, rest) = fold_cases d xs w (step d x v) e in
    Grows-no_conflict v v' (step-Grows d x x.payload v v' first) (fold-no_conflict d xs v' w rest h)

pub same_view : {v w : View} → ok v ≡ ok w → v ≡ w
same_view e = ground arith

pub checked-ok :
    (r : Result View) (w : View)
    → (elim r [ ok v ↦ checked v | err x ↦ err x ]) ≡ ok w
    → (r ≡ ok w) × (has_conflict w.scanners ≡ false)
unfolding checked
checked-ok (ok v) w e = elim (Bool-cases (has_conflict v.scanners)) [
  | inl c ↦ absurd (ground (arith, e, c))
  | inr c ↦ let k : v ≡ w = ground (arith, e, c) in (ap ok k, rw (← k) c)
]
checked-ok (err x) w e = absurd (ground arith)

rebuild_sorted :
    (d : Decimals) (xs : List CanonicalEvent) (u : View)
    → IsSorted xs
    → fold d xs empty_view ≡ ok u
    → has_conflict u.scanners ≡ false
    → rebuild d xs ≡ ok u
unfolding rebuild checked
rebuild_sorted d xs u s e h = rw (sort_events-sorted xs s, e, rebuild) (rw (h, checked))

-- A prefix of sorted events can be replayed where all of them can.
rebuild-prefix :
    (d : Decimals) (xs ys : List CanonicalEvent) (w : View)
    → IsSorted (xs ++ ys)
    → rebuild d (xs ++ ys) ≡ ok w
    → (u : View) × (rebuild d xs ≡ ok u)
unfolding rebuild checked
rebuild-prefix d xs ys w s e =
    let (folded, clear) = checked-ok (fold d (sort_events (xs ++ ys)) empty_view) w e in
    let (u, front, back) =
      fold-append d xs ys empty_view w (rw (sort_events-sorted (xs ++ ys) s) at folded) in
    (
      u,
      rebuild_sorted d xs u (prefix-IsSorted xs ys s) front (fold-no_conflict d ys u w back clear),
    )

-- An event of a new producer key that can be replayed is accepted.
ingest_new :
    (d : Decimals) (done : List CanonicalEvent) (u u' : View) (e : CanonicalEvent)
    → find_producer e done ≡ none
    → rebuild d (done ++ (e ∷ [])) ≡ ok u'
    → ingest d (record { events = done; view = u }) e ≡ (
      record { events = done ++ (e ∷ []); view = u' },
      ok (record { accepted = true; duplicate = false; event = e }),
    )
unfolding ingest accept
ingest_new d done u u' e new r = rw (new, ingest) (rw (r, accept))

rebuild_again :
    (d : Decimals) (es : List CanonicalEvent) (w : View)
    → rebuild d es ≡ ok w
    → rebuild d (sort_events es) ≡ ok w
unfolding rebuild
rebuild_again d es w e =
    rw (sort_events-sorted (sort_events es) (sort_events-IsSorted es), rebuild) e

module _ {Line : Type 0} (c : Codec Line) (parse : Parser) (d : Decimals) where
  load_step :
      (s t : NumericState) (l : Line) (ls : List Line) (e : CanonicalEvent) (r : IngestResult)
      → read_line c parse d l ≡ some e
      → ingest d s e ≡ (t, ok r)
      → load_from c parse d s (l ∷ ls) ≡ load_from c parse d t ls
  unfolding load_from
  load_step s t l ls e r read taken =
      let result : (ingest d s e).1 ≡ ok r = ap (λ o. o.1) taken in
      let left : (ingest d s e).0 ≡ t = ap (λ o. o.0) taken in
      rw (read, load_from) (rw result (ap (λ q. load_from c parse d q ls) left))

  line_read :
      (e : CanonicalEvent)
      → ((payload : String) → c.b64decode (c.b64encode payload) ≡ some payload)
      → parse e.raw_payload ≡ some e
      → read_line c parse d (c.b64encode e.raw_payload) ≡ some e
  unfolding read_line
  line_read e law p = rw (law e.raw_payload, read_line) p

  load_rest :
      (done rest : List CanonicalEvent) (u w : View)
      → ((payload : String) → c.b64decode (c.b64encode payload) ≡ some payload)
      → AllParsed parse rest
      → IsSorted (done ++ rest)
      → Distinct (done ++ rest)
      → rebuild d done ≡ ok u
      → rebuild d (done ++ rest) ≡ ok w
      → load_from c parse d
          (record { events = done; view = u })
          (map (λ e. c.b64encode e.raw_payload) rest)
        ≡ some (record { events = done ++ rest; view = w })
  unfolding load_from
  load_rest done [] u w law p s a r q =
      let k : u ≡ w = same_view (sym r ∙ ap (rebuild d) (sym (append-nil done)) ∙ q) in
      rw (append-nil done, k)
  load_rest done (e ∷ es) u w law p s a r q =
      let again : (done ++ (e ∷ [])) ++ es ≡ done ++ (e ∷ es) = append_assoc done (e ∷ []) es in
      let s' : IsSorted ((done ++ (e ∷ [])) ++ es) = subst IsSorted (sym again) s in
      let a' : Distinct ((done ++ (e ∷ [])) ++ es) = subst Distinct (sym again) a in
      let q' : rebuild d ((done ++ (e ∷ [])) ++ es) ≡ ok w = ap (rebuild d) again ∙ q in
      let (u', r') = rebuild-prefix d (done ++ (e ∷ [])) es w s' q' in
      let taken = ingest_new d done u u' e (absent_before e done es a) r' in
      let lines = map (λ (x : CanonicalEvent). c.b64encode x.raw_payload) es in
      load_step _ _ (c.b64encode e.raw_payload) lines e _ (line_read e law p.0) taken
      ∙ load_rest (done ++ (e ∷ [])) es u' w law p.1 s' a' r' q'
      ∙ ap (λ events. some (record { events = events; view = w })) again

  -- From any state that calls of `ingest` have reached, whether they returned or raised, each with an
  -- event that the parser returns for the payload that the event keeps, and where base64 gives back what
  -- it encodes: the history that is saved loads again, to the events in their order and the same view,
  -- in whatever order the events had come.
  pub load-save :
      (s : NumericState)
      → ((payload : String) → c.b64decode (c.b64encode payload) ≡ some payload)
      → Ingested parse d s
      → load_history c parse d (save_history c parse d s)
        ≡ some (record { events = sort_events s.events; view = s.view })
  unfolding load_history save_history
  load-save s law run =
      let (replay, distinct, parsed) = Ingested-Loadable parse d s run in
      load_rest [] (sort_events s.events) empty_view s.view law
        (sort_events-AllParsed parse s.events parsed) (sort_events-IsSorted s.events)
        (sort_events-Distinct s.events distinct) (nothing_yet d)
        (rebuild_again d s.events s.view replay)
