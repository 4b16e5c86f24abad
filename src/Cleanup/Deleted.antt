-- ===== src/Cleanup/Deleted.antt =====
-- Which rows the loop of messaging/outbox-cleanup.ts deletes.
use one_marketplace.Base.{
  ℕ, zero, suc, ◌+◌, ◌-◌, ◌≤◌, ◌<◌, ◌≡◌, refl, ◌∙◌, Bool, true, false, not, some, inl, inr, List,
  [], ◌∷◌, length, ltb, arith, Bool-cases, Option-cases,
}
use one_marketplace.Base.Table.{select}
use one_marketplace.Entities.{Outbox}
use one_marketplace.Cleanup.Service.{is_outdated, delete_some, cleanup_from, cleanup_outbox}

module _ {A : Type 0} (p : A → Bool) where
  pub delete_some-length :
      (limit : ℕ) (xs : List A)
      → (delete_some limit p xs).0 + length (delete_some limit p xs).1 ≡ length xs
  unfolding delete_some
  delete_some-length limit [] = refl
  delete_some-length limit (x ∷ xs) =
      ground (arith, delete_some-length limit xs, delete_some-length (limit - 1) xs)

  -- A batch that is not full took every row that matches.
  delete_some-select :
      (limit : ℕ) (xs : List A)
      → (delete_some limit p xs).0 < limit
      → (delete_some limit p xs).1 ≡ select (λ x. not (p x)) xs
  unfolding delete_some select
  delete_some-select limit [] h = refl
  delete_some-select limit (x ∷ xs) h =
      ground (arith, delete_some-select limit xs, delete_some-select (limit - 1) xs)

  -- A batch takes no row but those that match.
  delete_some-keeps :
      (q : A → Bool)
      → ((x : A) → p x ≡ true → q x ≡ true)
      → (limit : ℕ) (xs : List A)
      → select (λ x. not (q x)) (delete_some limit p xs).1 ≡ select (λ x. not (q x)) xs
  unfolding delete_some select
  delete_some-keeps q imp limit [] = refl
  delete_some-keeps q imp limit (x ∷ xs) =
      ground
        (arith, imp x, delete_some-keeps q imp limit xs, delete_some-keeps q imp (limit - 1) xs)

ltb-false : (a b : ℕ) → ltb a b ≡ false → b ≤ a
ltb-false a b h = ground arith

-- The end of the loop: what it counted, and the rows left after its last batch, at `now`.
pub record Cleaned {A : Type 0} (p : ℕ → A → Bool) (now deleted : ℕ) (rows : List A)
    (r : ℕ × List A) : Type 0 where
  pub counted : r.0 + length r.1 ≡ deleted + length rows
  pub left : r.1 ≡ select (λ x. not (p now x)) rows

module _ {A : Type 0} (p : ℕ → A → Bool) (clock : ℕ → ℕ) (batch : ℕ)
    (grows : (s t : ℕ) (x : A) → s ≤ t → p s x ≡ true → p t x ≡ true)
    (ticks : (m n : ℕ) → m ≤ n → clock n ≤ clock m) (some_batch : 0 < batch) where
  cleanup_from-last :
      (fuel : ℕ) (deleted : ℕ) (rows : List A)
      → (delete_some batch (p (clock fuel)) rows).0 < batch
      → cleanup_from (suc fuel) batch p clock deleted rows
        ≡ some (
          deleted + (delete_some batch (p (clock fuel)) rows).0,
          (delete_some batch (p (clock fuel)) rows).1,
        )
  unfolding cleanup_from
  cleanup_from-last fuel deleted rows h = ground (arith, h)

  cleanup_from-more :
      (fuel : ℕ) (deleted : ℕ) (rows : List A)
      → ltb (delete_some batch (p (clock fuel)) rows).0 batch ≡ false
      → cleanup_from (suc fuel) batch p clock deleted rows
        ≡ cleanup_from fuel batch p clock
            (deleted + (delete_some batch (p (clock fuel)) rows).0)
            (delete_some batch (p (clock fuel)) rows).1
  unfolding cleanup_from
  cleanup_from-more fuel deleted rows h = rw h refl

  Cleaned-batch :
      (fuel last deleted : ℕ) (rows : List A) (r : ℕ × List A)
      → last < fuel
      → Cleaned p
          (clock last)
          (deleted + (delete_some batch (p (clock fuel)) rows).0)
          (delete_some batch (p (clock fuel)) rows).1
          r
      → Cleaned p (clock last) deleted rows r
  Cleaned-batch fuel last deleted rows r earlier c = record {
    counted = omega (arith, c.counted, delete_some-length (p (clock fuel)) batch rows);
    left =
        c.left
        ∙ delete_some-keeps (p (clock fuel)) (p (clock last))
            (λ x h. grows _ _ x (ticks last fuel (omega (arith, earlier))) h) batch rows;
  }

  pub cleanup_from-Cleaned :
      (fuel deleted : ℕ) (rows : List A)
      → length rows < fuel
      → (r : ℕ × List A) × (last : ℕ) × (cleanup_from fuel batch p clock deleted rows ≡ some r)
        × (last < fuel)
        × Cleaned p (clock last) deleted rows r
  cleanup_from-Cleaned zero deleted rows h = absurd (omega arith)
  cleanup_from-Cleaned (suc fuel) deleted rows h =
      let (affected, left) = delete_some batch (p (clock fuel)) rows in
      let size = delete_some-length (p (clock fuel)) batch rows in
      elim (Bool-cases (ltb affected batch)) [
        | inl final ↦ (
          (deleted + affected, left),
          fuel,
          cleanup_from-last fuel deleted rows (ground arith),
          omega arith,
          record {
            counted = omega (arith, size);
            left = delete_some-select (p (clock fuel)) batch rows (ground arith);
          },
        )
        | inr full ↦
            let shorter = ltb-false affected batch full in
            let (r, last, run, earlier, c) =
              cleanup_from-Cleaned fuel (deleted + affected) left
                (omega (arith, shorter, size, some_batch, h)) in
            (
              r,
              last,
              cleanup_from-more fuel deleted rows full ∙ run,
              omega (arith, earlier),
              Cleaned-batch fuel last deleted rows r earlier c,
            )
      ]

is_outdated-grows :
    (days s t : ℕ) (row : Outbox)
    → s ≤ t
    → is_outdated days s row ≡ true
    → is_outdated days t row ≡ true
unfolding is_outdated
is_outdated-grows days s t row h e = elim (Option-cases row.published_at) [
  | inl unpublished ↦ ground (arith, unpublished)
  | inr (at, published) ↦ ground (arith, published)
]

-- With a positive batch size, fuel for the rows and a clock that does not go back, the cleanup
-- ends: it has deleted exactly the rows outdated at the time of its last batch, and counted them.
cleanup_outbox-Cleaned :
    (fuel days batch : ℕ) (clock : ℕ → ℕ) (rows : List Outbox)
    → ((m n : ℕ) → m ≤ n → clock n ≤ clock m)
    → 0 < batch
    → length rows < fuel
    → (r : ℕ × List Outbox) × (last : ℕ) × (cleanup_outbox fuel days batch clock rows ≡ some r)
      × (last < fuel)
      × Cleaned (is_outdated days) (clock last) 0 rows r
unfolding cleanup_outbox
cleanup_outbox-Cleaned fuel days batch clock rows ticks some_batch h =
    cleanup_from-Cleaned (is_outdated days) clock batch (is_outdated-grows days) ticks some_batch
      fuel 0 rows h
