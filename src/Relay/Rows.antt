-- ===== src/Relay/Rows.antt =====
-- What a round of the relay (messaging/outbox-relay.ts) does to the rows, against a table of what a
-- batch is to do with each.
use one_marketplace.Base.{
  ℕ, ◌≡◌, refl, subst, Bool, true, false, ◌&&◌, none, some, List, [], ◌∷◌, arith, ◌==◌,
  if◌then◌else◌, map,
}
use one_marketplace.Base.Table.{update, first}
use one_marketplace.Base.Keyed.{row_at, DistinctKeys}
use one_marketplace.Entities.{Outbox}
use one_marketplace.Relay.Batch.{
  Publish, confirmed, returned, broken, Environment, is_selectable, mark_failed, mark_published,
}

abbrev pub is_confirmed : Publish → Bool
is_confirmed confirmed = true
is_confirmed returned = false
is_confirmed broken = false

-- Whether a batch that skips some rows is to send the row.
abbrev pub is_due : Environment → List ℕ → Outbox → Bool
is_due env skipped row = is_selectable skipped row && is_confirmed (env.publish row)

-- The row after the batch: published if the broker confirmed it, tried once more without that.
abbrev pub done : Environment → List ℕ → Outbox → Outbox
done env skipped row =
    if is_selectable skipped row
    then (if is_confirmed (env.publish row) then mark_published env.now row else mark_failed row)
    else row

module _ (f g : Outbox → Outbox) (id : ℕ) (mark : Outbox → Outbox)
    (agree : (x : Outbox) → (x.id == id) ≡ false → g x ≡ f x) where
  map-update_absent :
      (xs : List Outbox)
      → row_at (λ (r : Outbox). r.id) id xs ≡ none
      → map g (update (λ r. r.id == id) mark xs) ≡ map f xs
  unfolding update first
  map-update_absent [] h = refl
  map-update_absent (x ∷ xs) h = ground (arith, agree x, map-update_absent xs)

  -- The rows but one are as before, and that one is what it is to be.
  pub map-update_row :
      (xs : List Outbox) (a : Outbox)
      → DistinctKeys (λ (r : Outbox). r.id) xs
      → row_at (λ (r : Outbox). r.id) id xs ≡ some a
      → g (mark a) ≡ f a
      → map g (update (λ r. r.id == id) mark xs) ≡ map f xs
  unfolding update first
  map-update_row [] a d h e = absurd (ground arith)
  map-update_row (x ∷ xs) a d h e =
      let apart =
        λ (same : x.id ≡ id). subst (λ k. row_at (λ (r : Outbox). r.id) k xs ≡ none) same d.0 in
      ground (arith, apart, e, agree x, map-update_row xs a d.1, map-update_absent xs)
