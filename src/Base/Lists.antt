-- ===== src/Base/Lists.antt =====
-- Lists measured by native numbers, and Boolean searches through them.
use Prim.Native.Nat.{ℕ, suc, ◌+◌}
use mathlib.Core.Path.{◌≡◌, refl}
use mathlib.Core.Bool.{Bool, true, false, ◌&&◌, ◌||◌}
use mathlib.Core.List.{List, [], ◌∷◌, ◌++◌, Memᴰ}
use mathlib.Core.Logic.{inl, inr}
use mathlib.Core.Option.{Option, none, some}
use native.Mathlib.Omega.{arith}
use trading_ai_pipeline.Base.Tests.{if◌then◌else◌, Bool-cases, leb}

module _ {ℓ} {A : Type ℓ} where
  abbrev pub length : List A → ℕ
  length [] = 0
  length (x ∷ xs) = suc (length xs)

  pub length-append : (xs ys : List A) → length (xs ++ ys) ≡ length xs + length ys
  length-append [] ys = omega arith
  length-append (x ∷ xs) ys = omega (arith, length-append xs ys)

  -- Python's any(p(x) for x in xs) and all(p(x) for x in xs).
  abbrev pub any : (A → Bool) → List A → Bool
  any p [] = false
  any p (x ∷ xs) = p x || any p xs

  abbrev pub all : (A → Bool) → List A → Bool
  all p [] = true
  all p (x ∷ xs) = p x && all p xs

  -- [x for x in xs if p(x)]
  abbrev pub select : (A → Bool) → List A → List A
  select p [] = []
  select p (x ∷ xs) = let rest = select p xs in if p x then x ∷ rest else rest

  abbrev pub last? : List A → Option A
  last? [] = none
  last? (x ∷ []) = some x
  last? (x ∷ y ∷ r) = last? (y ∷ r)

  abbrev pub is_empty : List A → Bool
  is_empty [] = true
  is_empty (_ ∷ _) = false

  -- sorted(xs, key=…), which is stable: an element goes before those of its key that follow it.
  unfoldable pub insert_by : (A → ℕ) → A → List A → List A
  insert_by key x [] = x ∷ []
  insert_by key x (y ∷ ys) =
      let rest = insert_by key x ys in if leb (key x) (key y) then x ∷ (y ∷ ys) else y ∷ rest

  unfoldable pub sort_by : (A → ℕ) → List A → List A
  sort_by key [] = []
  sort_by key (x ∷ xs) = insert_by key x (sort_by key xs)

  -- A search of the selected elements that succeeds finds an element of the list, and a search that
  -- fails passes every element.
  pub any-select :
      (p q : A → Bool) (xs : List A)
      → any p (select q xs) ≡ true
      → (x : A) × Memᴰ x xs × (q x ≡ true) × (p x ≡ true)
  any-select p q [] h = absurd (ground arith)
  any-select p q (x ∷ xs) h = elim (Bool-cases (q x && p x)) [
    | inl hit ↦ (x, Memᴰ.head refl, ground arith, ground arith)
    | inr miss ↦ let (y, m, a, b) = any-select p q xs (ground arith) in (y, Memᴰ.tail m, a, b)
  ]

  pub none-select :
      (p q : A → Bool) (xs : List A) (x : A)
      → any p (select q xs) ≡ false
      → Memᴰ x xs
      → q x ≡ true
      → p x ≡ false
  none-select p q [] x h m s = elim m [ ]
  none-select p q (y ∷ ys) x h (Memᴰ.head e) s = let k : x ≡ y = e in ground arith
  none-select p q (y ∷ ys) x h (Memᴰ.tail m) s = none-select p q ys x (ground arith) m s

  pub any-false : (p : A → Bool) (xs : List A) (x : A) → any p xs ≡ false → Memᴰ x xs → p x ≡ false
  any-false p [] x h m = elim m [ ]
  any-false p (y ∷ ys) x h (Memᴰ.head e) = let k : x ≡ y = e in ground (arith, k)
  any-false p (y ∷ ys) x h (Memᴰ.tail m) = any-false p ys x (ground arith) m
