-- ===== src/Base/Search.antt =====
-- The first of the selected elements by an order, as ORDER BY … LIMIT 1 and as the head of a stable sort.
use mathlib.Core.Path.{◌≡◌, sym, subst}
use mathlib.Core.Bool.{Bool, true, false}
use mathlib.Core.List.{List, [], ◌∷◌, Memᴰ}
use mathlib.Core.Logic.{inl, inr}
use mathlib.Core.Option.{Option, none, some}
use native.Mathlib.Omega.{arith}
use trading_ai_pipeline.Base.Tests.{if◌then◌else◌, Bool-cases, Option-cases}
use trading_ai_pipeline.Base.Lists.{select}

unfoldable pub first_by : {A : Type 0} → (A → A → Bool) → List A → Option A
first_by before [] = none
first_by before (x ∷ xs) = elim (first_by before xs) [
  | none ↦ some x
  | some y ↦ some (if before y x then y else x)
]

module _ {A : Type 0} (before : A → A → Bool) (p : A → Bool) where
  -- The row that is found is a row of the table that the WHERE clause selects.
  pub first_by-select :
      (xs : List A) (y : A) → first_by before (select p xs) ≡ some y → Memᴰ y xs × (p y ≡ true)
  unfolding first_by
  first_by-select [] y e = absurd (ground arith)
  first_by-select (x ∷ xs) y e = elim (Bool-cases (p x)) [
    | inr out ↦ let (m, k) = first_by-select xs y (rw out at e) in (Memᴰ.tail m, k)
    | inl hit ↦ elim (Option-cases (first_by before (select p xs))) [
      | inl empty ↦
          let same : x ≡ y = ground (arith, e, hit, empty) in
          (Memᴰ.head (sym same), ground (arith, same, hit))
      | inr (z, found) ↦
          let (m, k) = first_by-select xs z found in
          elim (Bool-cases (before z x)) [
            | inl c ↦
                let same : z ≡ y = ground (arith, e, hit, found, c) in
                (Memᴰ.tail (subst (λ w. Memᴰ w xs) same m), ground (arith, same, k))
            | inr c ↦
                let same : x ≡ y = ground (arith, e, hit, found, c) in
                (Memᴰ.head (sym same), ground (arith, same, hit))
          ]
    ]
  ]

  -- A search that finds nothing passed over rows that the clause does not select.
  pub first_by-none :
      (xs : List A) (x : A) → first_by before (select p xs) ≡ none → Memᴰ x xs → p x ≡ false
  unfolding first_by
  first_by-none [] x e m = elim m [ ]
  first_by-none (y ∷ ys) x e (Memᴰ.head k) = let q : x ≡ y = k in ground (arith, e, q)
  first_by-none (y ∷ ys) x e (Memᴰ.tail m) = first_by-none ys x (ground (arith, e)) m
