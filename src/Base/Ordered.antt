-- ===== src/Base/Ordered.antt =====
-- SELECT ... ORDER BY ... LIMIT 1, and the update of the row that it returned.
use one_marketplace.Base.Tests.{◌==◌, if◌then◌else◌, Bool-cases, Option-cases, ==_iff}
use one_marketplace.Base.Table.{select, first, count, update}
use one_marketplace.Base.Lists.{All}
use one_marketplace.Base.Keyed.{row_at, DistinctKeys}
use mathlib.Core.Path.{◌≡◌, refl, sym, subst}
use mathlib.Core.Logic.{inl, inr}
use mathlib.Core.Bool.{Bool, true, false}
use mathlib.Core.Option.{Option, none, some}
use mathlib.Core.List.{List, [], ◌∷◌}
use native.Mathlib.Omega.{arith}
use Prim.Native.Nat.{ℕ, ◌+◌}

abbrev pub one_if : Bool → ℕ
one_if b = if b then 1 else 0

module _ {A : Type 0} where
  abbrev pub sooner : (A → A → Bool) → A → Option A → Option A
  sooner before x none = some x
  sooner before x (some y) = if before y x then some y else some x

  -- The first row by an order, or the earlier of two rows that it does not tell apart.
  unfoldable pub least : (A → A → Bool) → List A → Option A
  least before [] = none
  least before (x ∷ xs) = sooner before x (least before xs)

  pub least-none :
      (before : A → A → Bool) (p : A → Bool) (xs : List A)
      → least before (select p xs) ≡ none
      → count p xs ≡ 0
  unfolding least select count
  least-none before p [] h = refl
  least-none before p (x ∷ xs) h = elim (Bool-cases (p x)) [
    | inr e ↦ ground (arith, least-none before p xs)
    | inl e ↦ elim (Option-cases (least before (select p xs))) [
      | inl none_left ↦ absurd (ground arith)
      | inr (y, found) ↦ absurd (ground arith)
    ]
  ]

module _ {A : Type 0} (key : A → ℕ) where
  pub least-row :
      (before : A → A → Bool) (p : A → Bool) (xs : List A) (a : A)
      → DistinctKeys key xs
      → least before (select p xs) ≡ some a
      → (row_at key (key a) xs ≡ some a) × (p a ≡ true)
  unfolding least select first
  least-row before p [] a d h = absurd (ground arith)
  least-row before p (x ∷ xs) a d h =
      let apart = λ (e : key x ≡ key a). subst (λ k. row_at key k xs ≡ none) e d.0 in
      elim (Bool-cases (p x)) [
        | inr e ↦ ground (arith, apart, least-row before p xs a d.1)
        | inl e ↦ elim (Option-cases (least before (select p xs))) [
          | inl none_left ↦ ground arith
          | inr (y, found) ↦ ground (arith, apart, least-row before p xs a d.1)
        ]
      ]

  pub update_absent :
      (id : ℕ) (f : A → A) (xs : List A)
      → row_at key id xs ≡ none
      → update (λ x. key x == id) f xs ≡ xs
  unfolding first update
  update_absent id f [] h = refl
  update_absent id f (x ∷ xs) h = ground (arith, update_absent id f xs)

  count-update_absent :
      (id : ℕ) (f : A → A) (q q' : A → Bool)
      → ((x : A) → (key x == id) ≡ false → q' x ≡ q x)
      → (xs : List A) → row_at key id xs ≡ none
      → count q' (update (λ x. key x == id) f xs) ≡ count q xs
  unfolding count update first
  count-update_absent id f q q' agree [] h = refl
  count-update_absent id f q q' agree (x ∷ xs) h =
      ground (arith, agree x, count-update_absent id f q q' agree xs)

  -- How an update of one row changes a count, when the condition changes for that row alone.
  pub count-update_row :
      (id : ℕ) (f : A → A) (q q' : A → Bool)
      → ((x : A) → (key x == id) ≡ false → q' x ≡ q x)
      → (xs : List A) (a : A) → DistinctKeys key xs
      → row_at key id xs ≡ some a
      → count q' (update (λ x. key x == id) f xs) + one_if (q a) ≡ count q xs + one_if (q' (f a))
  unfolding count update first
  count-update_row id f q q' agree [] a d h = absurd (ground arith)
  count-update_row id f q q' agree (x ∷ xs) a d h =
      let apart = λ (e : key x ≡ id). subst (λ k. row_at key k xs ≡ none) e d.0 in
      ground (
        arith,
        apart,
        agree x,
        count-update_row id f q q' agree xs a d.1,
        count-update_absent id f q q' agree xs,
      )

  module _ (f : A → A) (keeps : (x : A) → key (f x) ≡ key x) where
    pub row_at-update_row_absent :
        (id j : ℕ) (xs : List A)
        → row_at key id xs ≡ none
        → row_at key j (update (λ x. key x == id) f xs) ≡ row_at key j xs
    unfolding first update
    row_at-update_row_absent id j [] h = refl
    row_at-update_row_absent id j (x ∷ xs) h = ground (arith, row_at-update_row_absent id j xs)

    pub row_at-update_row :
        (id j : ℕ) (xs : List A) (a : A)
        → DistinctKeys key xs
        → row_at key id xs ≡ some a
        → row_at key j (update (λ x. key x == id) f xs)
          ≡ (if j == id then some (f a) else row_at key j xs)
    unfolding first update
    row_at-update_row id j [] a d h = absurd (ground arith)
    row_at-update_row id j (x ∷ xs) a d h = ground (
      arith,
      λ (e : key x ≡ id). subst (λ k. row_at key k xs ≡ none) e d.0,
      keeps x,
      row_at-update_row id j xs a d.1,
      row_at-update_row_absent id j xs,
    )

    row_at-update_row_none :
        (id j : ℕ) (xs : List A)
        → row_at key j xs ≡ none
        → row_at key j (update (λ x. key x == id) f xs) ≡ none
    unfolding first update
    row_at-update_row_none id j [] h = refl
    row_at-update_row_none id j (x ∷ xs) h = ground (arith, keeps x, row_at-update_row_none id j xs)

    pub update_row-DistinctKeys :
        (id : ℕ) (xs : List A)
        → DistinctKeys key xs
        → DistinctKeys key (update (λ x. key x == id) f xs)
    unfolding update
    update_row-DistinctKeys id [] d = tt
    update_row-DistinctKeys id (x ∷ xs) d =
        ground
          (arith, keeps x, row_at-update_row_none id (key x) xs, update_row-DistinctKeys id xs d.1)

  pub All-update_row :
      (P : A → Type 0) (f : A → A) (id : ℕ) (xs : List A) (a : A)
      → DistinctKeys key xs
      → row_at key id xs ≡ some a
      → P (f a)
      → All P xs
      → All P (update (λ x. key x == id) f xs)
  unfolding update first
  All-update_row P f id [] a d h new all = tt
  All-update_row P f id (x ∷ xs) a d h new all = elim (Bool-cases (key x == id)) [
    | inl hit ↦
        let same : x ≡ a = ground arith in
        let absent = subst (λ k. row_at key k xs ≡ none) ((==_iff (key x) id).0 hit) d.0 in
        rw (hit, update_absent id f xs absent) (subst (λ y. P (f y)) (sym same) new, all.1)
    | inr miss ↦ rw miss (all.0, All-update_row P f id xs a d.1 (ground arith) new all.1)
  ]
