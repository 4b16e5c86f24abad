-- ===== src/RelayProcess/Rows.antt =====
-- Rows that updates and cleanups leave (messaging/outbox-relay.ts, messaging/outbox-cleanup.ts).
use one_marketplace.Base.{
  ℕ, zero, suc, ◌+◌, ◌-◌, ◌<◌, ◌≡◌, refl, Bool, true, false, some, inl, inr, List, [], ◌∷◌, length,
  ltb, arith, Bool-cases, if◌then◌else◌,
}
use one_marketplace.Base.Table.{exists, update}
use one_marketplace.Cleanup.{delete_some, cleanup_from}
use one_marketplace.Cleanup.Deleted.{delete_some-length}

module _ {A : Type 0} (q : A → Bool) where
  exists-kept :
      (b : Bool) (f : A → A) (x : A)
      → (b ≡ true → q x ≡ true → q (f x) ≡ true)
      → q x ≡ true
      → q (if b then f x else x) ≡ true
  exists-kept true f x keeps h = keeps refl h
  exists-kept false f x keeps h = h

  pub exists-update :
      (p : A → Bool) (f : A → A) (rows : List A)
      → ((r : A) → p r ≡ true → q r ≡ true → q (f r) ≡ true)
      → exists q rows ≡ true
      → exists q (update p f rows) ≡ true
  unfolding exists update
  exists-update p f [] keeps h = h
  exists-update p f (r ∷ rows) keeps h = elim (Bool-cases (q r)) [
    | inl here ↦ let kept = exists-kept (p r) f r (keeps r) here in ground (arith, kept)
    | inr there ↦
        let kept = exists-update p f rows keeps (ground (arith, there, h)) in ground (arith, kept)
  ]

  -- A deletion of other rows.
  exists-delete_some :
      (limit : ℕ) (p : A → Bool) (rows : List A)
      → ((r : A) → p r ≡ true → q r ≡ false)
      → exists q rows ≡ true
      → exists q (delete_some limit p rows).1 ≡ true
  unfolding exists delete_some
  exists-delete_some limit p [] other h = h
  exists-delete_some limit p (r ∷ rows) other h =
      let kept = exists-delete_some limit p rows other in
      let kept_less = exists-delete_some (limit - 1) p rows other in
      ground (arith, other r, kept, kept_less, h)

  -- A cleanup with fuel for the rows ends, and has kept such a row.
  pub cleanup_from-ends :
      (p : ℕ → A → Bool) (clock : ℕ → ℕ) (batch fuel deleted : ℕ) (rows : List A)
      → ((t : ℕ) (r : A) → p t r ≡ true → q r ≡ false)
      → 0 < batch
      → length rows < fuel
      → (r : ℕ × List A) × (cleanup_from fuel batch p clock deleted rows ≡ some r)
        × (exists q rows ≡ true → exists q r.1 ≡ true)
  unfolding cleanup_from
  cleanup_from-ends p clock batch zero deleted rows other some_batch h = absurd (omega arith)
  cleanup_from-ends p clock batch (suc fuel) deleted rows other some_batch h =
      let (affected, left) = delete_some batch (p (clock fuel)) rows in
      let size = delete_some-length (p (clock fuel)) batch rows in
      let kept = exists-delete_some batch (p (clock fuel)) rows (other (clock fuel)) in
      elim (Bool-cases (ltb affected batch)) [
        | inl final ↦ ((deleted + affected, left), rw final refl, kept)
        | inr full ↦
            let (r, run, rest) =
              cleanup_from-ends p clock batch fuel (deleted + affected) left other some_batch
                (ground (arith, full, size, some_batch, h)) in
            (r, rw full run, λ e. rest (kept e))
      ]
