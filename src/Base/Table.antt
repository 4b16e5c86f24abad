-- ===== src/Base/Table.antt =====
-- Tables as lists of rows, and the statements that the repository's SQL and query builders run on
-- them. A condition is a Boolean test on a row, as in a WHERE clause.
use mathlib.Core.Path.{◌≡◌, refl, ap}
use mathlib.Core.Bool.{Bool, true, false, not, ◌||◌}
use mathlib.Core.Option.{Option, none, some}
use mathlib.Core.List.{List, [], ◌∷◌, ◌++◌}
use mathlib.Core.Logic.{inl, inr}
use native.Mathlib.Omega.{arith}
use one_marketplace.Base.Tests.{if◌then◌else◌, Bool-cases}
use one_marketplace.Base.Lists.{length}
use Prim.Native.Nat.{ℕ, suc, ◌+◌}

module _ {ℓ} {A : Type ℓ} where
  -- SELECT ... WHERE
  unfoldable pub select : (A → Bool) → List A → List A
  select p [] = []
  select p (x ∷ xs) = let rest = select p xs in if p x then x ∷ rest else rest

  -- The first row of such a result.
  unfoldable pub first : (A → Bool) → List A → Option A
  first p [] = none
  first p (x ∷ xs) = let rest = first p xs in if p x then some x else rest

  -- Whether such a result has a row.
  unfoldable pub exists : (A → Bool) → List A → Bool
  exists p [] = false
  exists p (x ∷ xs) = p x || exists p xs

  -- UPDATE ... SET ... WHERE
  unfoldable pub update : (A → Bool) → (A → A) → List A → List A
  update p f [] = []
  update p f (x ∷ xs) = (if p x then f x else x) ∷ update p f xs

  -- DELETE ... WHERE
  unfoldable pub delete : (A → Bool) → List A → List A
  delete p xs = select (λ x. not (p x)) xs

  -- SELECT count(*) ... WHERE
  unfoldable pub count : (A → Bool) → List A → ℕ
  count p [] = 0
  count p (x ∷ xs) = (if p x then 1 else 0) + count p xs

  pub length-select : (p : A → Bool) (xs : List A) → length (select p xs) ≡ count p xs
  unfolding select count
  length-select p [] = refl
  length-select p (x ∷ xs) = ground (arith, length-select p xs)

  pub length-update : (p : A → Bool) (f : A → A) (xs : List A) → length (update p f xs) ≡ length xs
  unfolding update
  length-update p f [] = refl
  length-update p f (x ∷ xs) = ap suc (length-update p f xs)

  pub first-satisfies : (p : A → Bool) (xs : List A) {a : A} → first p xs ≡ some a → p a ≡ true
  unfolding first
  first-satisfies p [] h = cc
  first-satisfies p (x ∷ xs) {a} h = elim (Bool-cases (p x)) [
    | inl e ↦ ground arith
    | inr e ↦ first-satisfies p xs (ground arith)
  ]

  pub first_of_exists :
      (p : A → Bool) (xs : List A) → exists p xs ≡ true → (a : A) × (first p xs ≡ some a)
  unfolding first exists
  first_of_exists p [] h = absurd (ground arith)
  first_of_exists p (x ∷ xs) h = elim (Bool-cases (p x)) [
    | inl e ↦ (x, ground arith)
    | inr e ↦ let (a, found) = first_of_exists p xs (ground arith) in (a, ground arith)
  ]

  pub exists-first : (p : A → Bool) (xs : List A) → first p xs ≡ none → exists p xs ≡ false
  unfolding first exists
  exists-first p [] h = refl
  exists-first p (x ∷ xs) h = ground (arith, exists-first p xs)

  pub first-exists : (p : A → Bool) (xs : List A) → exists p xs ≡ false → first p xs ≡ none
  unfolding first exists
  first-exists p [] h = refl
  first-exists p (x ∷ xs) h = ground (arith, first-exists p xs)

  pub update_none :
      (p : A → Bool) (f : A → A) (xs : List A) → exists p xs ≡ false → update p f xs ≡ xs
  unfolding update exists
  update_none p f [] h = refl
  update_none p f (x ∷ xs) h = ground (arith, update_none p f xs)

  pub update_of_count :
      (p : A → Bool) (f : A → A) (xs : List A) → count p xs ≡ 0 → update p f xs ≡ xs
  unfolding count update
  update_of_count p f [] h = refl
  update_of_count p f (x ∷ xs) h = ground (arith, update_of_count p f xs)

  pub exists-append :
      (p : A → Bool) (xs ys : List A) → exists p (xs ++ ys) ≡ (exists p xs || exists p ys)
  unfolding exists
  exists-append p [] ys = refl
  exists-append p (x ∷ xs) ys = ground (arith, exists-append p xs ys)

  pub count-append : (p : A → Bool) (xs ys : List A) → count p (xs ++ ys) ≡ count p xs + count p ys
  unfolding count
  count-append p [] ys = omega arith
  count-append p (x ∷ xs) ys = ground (arith, count-append p xs ys)

  first-append-some_step :
      (p : A → Bool) (x : A) (xs ys : List A) {a : A}
      → first p (x ∷ xs) ≡ some a
      → (first p xs ≡ some a → first p (xs ++ ys) ≡ some a)
      → first p (x ∷ xs ++ ys) ≡ some a
  unfolding first
  first-append-some_step p x xs ys h ih = ground arith

  pub first-append-some :
      (p : A → Bool) (xs ys : List A) {a : A} → first p xs ≡ some a → first p (xs ++ ys) ≡ some a
  unfolding first
  first-append-some p [] ys h = cc
  first-append-some p (x ∷ xs) ys {a} h =
      first-append-some_step p x xs ys h (λ k. first-append-some p xs ys k)

  pub first-append-none :
      (p : A → Bool) (xs ys : List A) → first p xs ≡ none → first p (xs ++ ys) ≡ first p ys
  unfolding first
  first-append-none p [] ys h = refl
  first-append-none p (x ∷ xs) ys h = ground (arith, first-append-none p xs ys)

  pub select-append_none :
      (p : A → Bool) (xs ys : List A) → exists p xs ≡ false → select p (xs ++ ys) ≡ select p ys
  unfolding select exists
  select-append_none p [] ys h = refl
  select-append_none p (x ∷ xs) ys h = ground (arith, select-append_none p xs ys)
