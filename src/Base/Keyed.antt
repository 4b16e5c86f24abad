-- ===== src/Base/Keyed.antt =====
-- Tables with a primary key, under conditional updates of one row.
use one_marketplace.Base.Tests.{◌==◌, if◌then◌else◌}
use one_marketplace.Base.Table.{first, count, update}
use mathlib.Core.Path.{◌≡◌, refl}
use mathlib.Core.Bool.{Bool, true, ◌&&◌}
use mathlib.Core.Option.{Option, none, some}
use mathlib.Core.List.{List, [], ◌∷◌, ◌++◌}
use native.Mathlib.Omega.{arith}
use Prim.Native.Nat.{ℕ}

module _ {A : Type 0} (key : A → ℕ) where
  -- WHERE id = $1
  abbrev pub row_at : ℕ → List A → Option A
  row_at id xs = first (λ a. key a == id) xs

  -- The keys are distinct.
  abbrev pub DistinctKeys : List A → Type 0
  DistinctKeys [] = Unit
  DistinctKeys (x ∷ xs) = (row_at (key x) xs ≡ none) × DistinctKeys xs

  -- WHERE id = $1 AND ...
  abbrev pub guarded : ℕ → (A → Bool) → A → Bool
  guarded id g a = key a == id && g a

  pub first-guarded :
      (id : ℕ) (g : A → Bool) (xs : List A) (a : A)
      → DistinctKeys xs
      → first (guarded id g) xs ≡ some a
      → (row_at id xs ≡ some a) × (g a ≡ true)
  unfolding first
  first-guarded id g [] a d h = cc
  first-guarded id g (x ∷ xs) a d h = ground (arith, first-guarded id g xs a d.1)

  pub guarded-first :
      (id : ℕ) (g : A → Bool) (xs : List A) (a : A)
      → row_at id xs ≡ some a
      → g a ≡ true
      → first (guarded id g) xs ≡ some a
  unfolding first
  guarded-first id g [] a h p = cc
  guarded-first id g (x ∷ xs) a h p = ground (arith, guarded-first id g xs a)

  pub row_at-key : (id : ℕ) (xs : List A) (a : A) → row_at id xs ≡ some a → key a ≡ id
  unfolding first
  row_at-key id [] a h = cc
  row_at-key id (x ∷ xs) a h = ground (arith, row_at-key id xs a)

  pub row_at-append_fresh :
      (id : ℕ) (xs : List A) (a : A)
      → row_at (key a) xs ≡ none
      → row_at id (xs ++ a ∷ []) ≡ (if id == key a then some a else row_at id xs)
  unfolding first
  row_at-append_fresh id [] a h = ground arith
  row_at-append_fresh id (x ∷ xs) a h = ground (arith, row_at-append_fresh id xs a)

  pub DistinctKeys-append_fresh :
      (xs : List A) (a : A)
      → row_at (key a) xs ≡ none
      → DistinctKeys xs
      → DistinctKeys (xs ++ a ∷ [])
  unfolding first
  DistinctKeys-append_fresh [] a h d = ground arith
  DistinctKeys-append_fresh (x ∷ xs) a h d =
      ground (arith, DistinctKeys-append_fresh xs a, row_at-append_fresh (key x) xs a)

  pub count-guarded_absent :
      (id : ℕ) (g : A → Bool) (xs : List A) → row_at id xs ≡ none → count (guarded id g) xs ≡ 0
  unfolding first count
  count-guarded_absent id g [] h = refl
  count-guarded_absent id g (x ∷ xs) h = ground (arith, count-guarded_absent id g xs)

  -- How many rows a condition on the key and the row finds: one, or none.
  pub count-guarded :
      (id : ℕ) (g : A → Bool) (xs : List A) (a : A)
      → DistinctKeys xs
      → row_at id xs ≡ some a
      → count (guarded id g) xs ≡ (if g a then 1 else 0)
  unfolding first count
  count-guarded id g [] a d h = absurd (ground arith)
  count-guarded id g (x ∷ xs) a d h =
      ground (arith, count-guarded id g xs a d.1, count-guarded_absent id g xs)

  module _ (g : A → Bool) (f : A → A) (keeps : (a : A) → key (f a) ≡ key a) where
    pub row_at-update_absent :
        (id j : ℕ) (xs : List A)
        → row_at id xs ≡ none
        → row_at j (update (guarded id g) f xs) ≡ row_at j xs
    unfolding first update
    row_at-update_absent id j [] h = refl
    row_at-update_absent id j (x ∷ xs) h = ground (arith, row_at-update_absent id j xs)

    -- The update changes the row with its key and no other.
    pub row_at-update :
        (id j : ℕ) (xs : List A) (a : A)
        → DistinctKeys xs
        → first (guarded id g) xs ≡ some a
        → row_at j (update (guarded id g) f xs) ≡ (if j == id then some (f a) else row_at j xs)
    unfolding first update
    row_at-update id j [] a d h = cc
    row_at-update id j (x ∷ xs) a d h =
        ground (arith, keeps x, row_at-update id j xs a d.1, row_at-update_absent id j xs)

    pub row_at-update-none :
        (id j : ℕ) (xs : List A) → row_at j xs ≡ none → row_at j (update (guarded id g) f xs) ≡ none
    unfolding first update
    row_at-update-none id j [] h = refl
    row_at-update-none id j (x ∷ xs) h = ground (arith, keeps x, row_at-update-none id j xs)

    pub update-DistinctKeys :
        (id : ℕ) (xs : List A) → DistinctKeys xs → DistinctKeys (update (guarded id g) f xs)
    unfolding update
    update-DistinctKeys id [] d = tt
    update-DistinctKeys id (x ∷ xs) d =
        ground (arith, keeps x, row_at-update-none id (key x) xs, update-DistinctKeys id xs d.1)
