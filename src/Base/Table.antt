-- ===== src/Base/Table.antt =====
-- SQL tables with a text primary key: a list of rows, the newest first. A statement with
-- `WHERE key=?` finds or updates the row of that key.
use Prim.Native.String.{String}
use mathlib.Core.Path.{◌≡◌, refl}
use mathlib.Core.List.{List, [], ◌∷◌, Memᴰ}
use mathlib.Core.Option
use mathlib.Core.Option.{Option, none, some}
use native.Mathlib.Omega.{arith}
use text.Mathlib.Text.{◌==◌}
use text.Mathlib.TextEquality.{eq_iff}
use mathlib.Core.Bool.{Bool, true, false}
use trading_ai_pipeline.Base.Tests.{if◌then◌else◌}
use trading_ai_pipeline.Base.Lists.{any, select}

module _ {A : Type 0} (key : A → String) where
  -- SELECT * FROM t WHERE key=?
  unfoldable pub find : String → List A → Option A
  find k [] = none
  find k (r ∷ rs) = if key r == k then some r else find k rs

  -- UPDATE t SET … WHERE key=?
  unfoldable pub update : String → (A → A) → List A → List A
  update k f [] = []
  update k f (r ∷ rs) = (if key r == k then f r else r) ∷ update k f rs

  pub find-update :
      (k j : String) (f : A → A) (rs : List A)
      → ((r : A) → key (f r) ≡ key r)
      → find j (update k f rs) ≡ (if k == j then Option.map f (find j rs) else find j rs)
  unfolding find update
  find-update k j f [] keep = ground arith
  find-update k j f (r ∷ rs) keep =
      ground
        (arith, keep r, find-update k j f rs keep, eq_iff (key r) k, eq_iff (key r) j, eq_iff k j)

  pub find-key : (k : String) (r : A) (rs : List A) → find k rs ≡ some r → key r ≡ k
  unfolding find
  find-key k r [] h = ground arith
  find-key k r (q ∷ rs) h = ground (arith, find-key k r rs, eq_iff (key q) k)

  -- The primary key: no two rows have one key.
  abbrev pub Unique : List A → Type 0
  Unique [] = Unit
  Unique (r ∷ rs) = (find (key r) rs ≡ none) × Unique rs

  -- A primary key keeps to one row through an UPDATE that leaves it alone.
  pub Unique-update :
      (k : String) (f : A → A) (rs : List A)
      → ((r : A) → key (f r) ≡ key r)
      → Unique rs
      → Unique (update k f rs)
  unfolding update
  Unique-update k f [] keep u = tt
  Unique-update k f (r ∷ rs) keep u =
      (keep_none (if key r == k then f r else r) (keep_if r), Unique-update k f rs keep u.1)
    where
      keep_if : (q : A) → key (if key q == k then f q else q) ≡ key q
      keep_if q = ground (arith, keep q)

      keep_none : (q : A) → key q ≡ key r → find (key q) (update k f rs) ≡ none
      keep_none q e = rw (e, find-update k (key r) f rs keep, u.0) (ground arith)

  -- An UPDATE neither makes nor repairs a second row of a key.
  pub Unique-updated :
      (k : String) (f : A → A) (rs : List A)
      → ((r : A) → key (f r) ≡ key r)
      → Unique (update k f rs)
      → Unique rs
  unfolding update
  Unique-updated k f [] keep u = tt
  Unique-updated k f (r ∷ rs) keep u =
      let same : key (if key r == k then f r else r) ≡ key r = ground (arith, keep r) in
      let absent : find (key r) (update k f rs) ≡ none = rw (← same) u.0 in
      (ground (arith, absent, find-update k (key r) f rs keep), Unique-updated k f rs keep u.1)

  -- In a table with a primary key, the key of a row finds that row.
  pub find-Memᴰ : (r : A) (rs : List A) → Unique rs → Memᴰ r rs → find (key r) rs ≡ some r
  unfolding find
  find-Memᴰ r [] u m = elim m [ ]
  find-Memᴰ r (q ∷ rs) u (Memᴰ.head e) = ground (arith, e, eq_iff (key q) (key r))
  find-Memᴰ r (q ∷ rs) u (Memᴰ.tail m) =
      ground (arith, find-Memᴰ r rs u.1 m, eq_iff (key q) (key r), u.0)

  absent-select :
      (p : A → Bool) (j : String) (rs : List A)
      → find j rs ≡ none
      → any (λ q. key q == j) (select p rs) ≡ false
  unfolding find
  absent-select p j [] h = refl
  absent-select p j (q ∷ rs) h = ground (arith, absent-select p j rs)

  -- In a table with a primary key, a selected row is the row that its key finds.
  pub find-select :
      (p : A → Bool) (j : String) (rs : List A) (r : A)
      → Unique rs
      → find j rs ≡ some r
      → any (λ q. key q == j) (select p rs) ≡ true
      → p r ≡ true
  unfolding find
  find-select p j [] r u e h = ground arith
  find-select p j (q ∷ rs) r u e h =
      ground (arith, absent-select p j rs, find-select p j rs r u.1, eq_iff (key q) j, u.0)

  -- A row that its key finds and that is selected is among the selected rows.
  pub select-find :
      (p : A → Bool) (j : String) (rs : List A) (r : A)
      → find j rs ≡ some r
      → p r ≡ true
      → any (λ q. key q == j) (select p rs) ≡ true
  unfolding find
  select-find p j [] r e h = ground arith
  select-find p j (q ∷ rs) r e h = ground (arith, select-find p j rs r)
