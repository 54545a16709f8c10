-- ===== src/ProjectA/MakeSense/Latest.antt =====
-- The expansion that `_matching_expansion` chooses.
use trading_ai_pipeline.Base.{
  ℕ, ◌≡◌, refl, sym, ap, ◌∙◌, true, false, none, some, List, [], ◌∷◌, Memᴰ, arith, Bool-cases,
  Option-cases, inl, inr,
}
use trading_ai_pipeline.Output.Stamp.TextOrder.{text_lt_trans, text_lt_irrefl}
use trading_ai_pipeline.ProjectA.MakeSense.{
  Expansion, Liquidity, candidate_time, id_text, key_lt, matching_expansion,
}

key_lt_trans : (a b c : ℕ × Expansion) → key_lt a b ≡ true → key_lt b c ≡ true → key_lt a c ≡ true
key_lt_trans a b c h k = ground (arith, text_lt_trans (id_text a.1) (id_text b.1) (id_text c.1))

key_lt_irrefl : (a : ℕ × Expansion) → key_lt a a ≡ false
key_lt_irrefl a = ground (arith, text_lt_irrefl (id_text a.1))

module _ (l : Liquidity) (trigger : ℕ) where
  pub matching_expansion-Mem :
      (history : List Expansion) (best : ℕ × Expansion)
      → matching_expansion l trigger history ≡ some best
      → Memᴰ best.1 history × (candidate_time l trigger best.1 ≡ some best.0)
  unfolding matching_expansion
  matching_expansion-Mem [] best h = absurd (ground arith)
  matching_expansion-Mem (item ∷ history) best h =
      elim (Option-cases (candidate_time l trigger item)) [
        | inl skipped ↦
            let (m, c) = matching_expansion-Mem history best (ground arith) in (Memᴰ.tail m, c)
        | inr (t, e) ↦ elim (Option-cases (matching_expansion l trigger history)) [
          | inl alone ↦ let same : best ≡ (t, item) = ground arith in rw same (Memᴰ.head refl, e)
          | inr (b, found) ↦ elim (Bool-cases (key_lt b (t, item))) [
            | inl before ↦ let same : best ≡ (t, item) = ground arith in rw same (Memᴰ.head refl, e)
            | inr after ↦
                let same : best ≡ b = ground arith in
                let (m, c) = matching_expansion-Mem history b found in rw same (Memᴰ.tail m, c)
          ]
        ]
      ]

  matching_expansion-none :
      (history : List Expansion) (item : Expansion) (t : ℕ)
      → matching_expansion l trigger history ≡ none
      → Memᴰ item history
      → candidate_time l trigger item ≡ some t
      → ⊥
  unfolding matching_expansion
  matching_expansion-none [] item t h m c = elim m [ ]
  matching_expansion-none (x ∷ history) item t h (Memᴰ.head e) c =
      let same : item ≡ x = e in
      elim (Option-cases (matching_expansion l trigger history)) [
        | inl alone ↦ ground arith
        | inr (b, found) ↦ ground arith
      ]
  matching_expansion-none (x ∷ history) item t h (Memᴰ.tail m) c =
      matching_expansion-none history item t (ground arith) m c

  newest_not_later :
      (x : Expansion) (history : List Expansion) (best : ℕ × Expansion) (t : ℕ)
      → matching_expansion l trigger (x ∷ history) ≡ some best
      → candidate_time l trigger x ≡ some t
      → key_lt best (t, x) ≡ false
  unfolding matching_expansion
  newest_not_later x history best t h c =
      elim (Option-cases (matching_expansion l trigger history)) [
        | inl alone ↦ let same : best ≡ (t, x) = ground arith in rw same (key_lt_irrefl (t, x))
        | inr (b, found) ↦ elim (Bool-cases (key_lt b (t, x))) [
          | inl before ↦ let same : best ≡ (t, x) = ground arith in rw same (key_lt_irrefl (t, x))
          | inr after ↦ let same : best ≡ b = ground arith in rw same after
        ]
      ]

  replaced_not_later :
      (b new c : ℕ × Expansion) → key_lt b new ≡ true → key_lt b c ≡ false → key_lt new c ≡ false
  replaced_not_later b new c h k = elim (Bool-cases (key_lt new c)) [
    | inr before ↦ before
    | inl after ↦ let both : key_lt b c ≡ true = key_lt_trans b new c h after in absurd cc
  ]

  no_later :
      (history : List Expansion) (best : ℕ × Expansion) (item : Expansion) (t : ℕ)
      → matching_expansion l trigger history ≡ some best
      → Memᴰ item history
      → candidate_time l trigger item ≡ some t
      → key_lt best (t, item) ≡ false
  unfolding matching_expansion
  no_later [] best item t h m c = elim m [ ]
  no_later (x ∷ history) best item t h (Memᴰ.head e) c =
      let same : item ≡ x = e in
      rw same (newest_not_later x history best t h (ap (candidate_time l trigger) (sym same) ∙ c))
  no_later (x ∷ history) best item t h (Memᴰ.tail m) c =
      elim (Option-cases (matching_expansion l trigger history)) [
        | inl alone ↦ absurd (matching_expansion-none history item t alone m c)
        | inr (b, found) ↦
            let kept : key_lt b (t, item) ≡ false = no_later history b item t found m c in
            elim (Option-cases (candidate_time l trigger x)) [
              | inl skipped ↦ let same : best ≡ b = ground arith in rw same kept
              | inr (t', e) ↦ elim (Bool-cases (key_lt b (t', x))) [
                | inl before ↦
                    let same : best ≡ (t', x) = ground arith in
                    rw same (replaced_not_later b (t', x) (t, item) before kept)
                | inr after ↦ let same : best ≡ b = ground arith in rw same kept
              ]
            ]
      ]

  -- The expansion that is chosen is a candidate of the history (of the level's symbol and feed,
  -- confirmed, towards the level, and not after the trigger), and no candidate of the history comes
  -- after it, by its time and then by its id.
  pub matching_expansion-greatest :
      (history : List Expansion) (best : ℕ × Expansion) (item : Expansion) (t : ℕ)
      → matching_expansion l trigger history ≡ some best
      → Memᴰ item history
      → candidate_time l trigger item ≡ some t
      → Memᴰ best.1 history
        × (candidate_time l trigger best.1 ≡ some best.0)
        × (key_lt best (t, item) ≡ false)
  matching_expansion-greatest history best item t h m c =
      let (there, fits) = matching_expansion-Mem history best h in
      (there, fits, no_later history best item t h m c)
