-- ===== src/Auth/Expired.antt =====
-- Which refresh tokens the cleanup of auth/auth-maintenance.ts deletes.
use one_marketplace.Base.{
  ℕ, zero, suc, ◌+◌, ◌-◌, ◌≤◌, ◌<◌, ◌≡◌, refl, ap, ◌∙◌, Bool, true, false, not, ◌&&◌, Option, some,
  List, [], ◌∷◌, length, ltb, leb, ◌==◌, arith, if◌then◌else◌,
}
use one_marketplace.Base.Table.{exists}
use one_marketplace.Entities.{RefreshToken}
use one_marketplace.Cleanup.{delete_some, cleanup_from}
use one_marketplace.Cleanup.Deleted.{Cleaned, cleanup_from-Cleaned}
use one_marketplace.Auth.Maintenance.{
  has_live, is_dead, expired_from, cleanup_expired_refresh_tokens,
}

exists-delete_some :
    {A : Type 0} (p q : A → Bool)
    → ((x : A) → p x ≡ true → q x ≡ false)
    → (limit : ℕ) (xs : List A) → exists q (delete_some limit p xs).1 ≡ exists q xs
unfolding exists delete_some
exists-delete_some p q apart limit [] = refl
exists-delete_some p q apart limit (x ∷ xs) = ground (
  arith,
  apart x,
  exists-delete_some p q apart limit xs,
  exists-delete_some p q apart (limit - 1) xs,
)

-- A batch deletes no token that is live, then or later.
has_live-batch :
    (limit s t family : ℕ) (tokens : List RefreshToken)
    → s ≤ t
    → has_live t family (delete_some limit (is_dead s tokens) tokens).1 ≡ has_live t family tokens
unfolding has_live is_dead
has_live-batch limit s t family tokens h =
    exists-delete_some (is_dead s tokens)
      (λ (live : RefreshToken). live.family_id == family && leb t live.expires_at)
      (λ x dead. ground (arith, h, dead)) limit tokens

has_live-later :
    (s t family : ℕ) (tokens : List RefreshToken)
    → s ≤ t
    → has_live s family tokens ≡ false
    → has_live t family tokens ≡ false
unfolding has_live exists
has_live-later s t family [] h e = refl
has_live-later s t family (row ∷ tokens) h e = ground (arith, has_live-later s t family tokens h)

is_dead-grows :
    (tokens : List RefreshToken) (s t : ℕ) (row : RefreshToken)
    → s ≤ t
    → is_dead s tokens row ≡ true
    → is_dead t tokens row ≡ true
unfolding is_dead
is_dead-grows tokens s t row h e = ground (arith, has_live-later s t row.family_id tokens h)

module _ (batch : ℕ) (clock : ℕ → ℕ) (ticks : (m n : ℕ) → m ≤ n → clock n ≤ clock m)
    (all : List RefreshToken) where
  -- At the batches to come, the same families are live in both tables.
  abbrev Agrees : ℕ → List RefreshToken → Type 0
  Agrees fuel tokens =
      (m family : ℕ) → m < fuel → has_live (clock m) family tokens ≡ has_live (clock m) family all

  Agrees-batch :
      (fuel : ℕ) (tokens : List RefreshToken)
      → Agrees (suc fuel) tokens
      → Agrees fuel (delete_some batch (is_dead (clock fuel) tokens) tokens).1
  Agrees-batch fuel tokens a m family h =
      has_live-batch batch (clock fuel) (clock m) family tokens (ticks m fuel (omega arith))
      ∙ a m family (omega arith)

  same_dead :
      (fuel : ℕ) (tokens : List RefreshToken)
      → Agrees (suc fuel) tokens
      → is_dead (clock fuel) tokens ≡ is_dead (clock fuel) all
  unfolding is_dead
  same_dead fuel tokens a =
      λ i row. ltb row.expires_at (clock fuel) && not (a fuel row.family_id (omega arith) i)

  -- A turn of the loop whose batch takes the rows of `p`, and what follows it.
  abbrev turn :
      ℕ
      → List RefreshToken
      → (RefreshToken → Bool)
      → (ℕ → List RefreshToken → Option (ℕ × List RefreshToken))
      → Option (ℕ × List RefreshToken)
  turn deleted tokens p more =
      let (affected, left) = delete_some batch p tokens in
      if ltb affected batch then some (deleted + affected, left) else more (deleted + affected) left

  -- The loop, which asks the table of each batch, is the one that asks the first table.
  expired_from-cleanup_from :
      (fuel deleted : ℕ) (tokens : List RefreshToken)
      → Agrees fuel tokens
      → expired_from fuel batch clock deleted tokens
        ≡ cleanup_from fuel batch (λ now. is_dead now all) clock deleted tokens
  unfolding expired_from cleanup_from
  expired_from-cleanup_from zero deleted tokens a = refl
  expired_from-cleanup_from (suc fuel) deleted tokens a =
      let (affected, left) = delete_some batch (is_dead (clock fuel) tokens) tokens in
      let same : turn deleted tokens (is_dead (clock fuel) tokens)
            (cleanup_from fuel batch (λ now. is_dead now all) clock)
          ≡ turn deleted tokens (is_dead (clock fuel) all)
              (cleanup_from fuel batch (λ now. is_dead now all) clock) =
        ap (λ p. turn deleted tokens p (cleanup_from fuel batch (λ now. is_dead now all) clock))
          (same_dead fuel tokens a) in
      ap (λ r. if ltb affected batch then some (deleted + affected, left) else r)
        (expired_from-cleanup_from fuel (deleted + affected) left (Agrees-batch fuel tokens a))
      ∙ same

-- With a positive batch size, fuel for the rows and a clock that does not go back, the cleanup of
-- refresh tokens ends: it has deleted exactly the tokens of the families all of whose tokens had
-- expired at the time of its last batch, and counted them.
pub cleanup_expired-Cleaned :
    (fuel batch : ℕ) (clock : ℕ → ℕ) (tokens : List RefreshToken)
    → ((m n : ℕ) → m ≤ n → clock n ≤ clock m)
    → 0 < batch
    → length tokens < fuel
    → (r : ℕ × List RefreshToken) × (last : ℕ) × (cleanup_expired_refresh_tokens fuel batch clock
          tokens
        ≡ some r)
      × (last < fuel)
      × Cleaned (λ now. is_dead now tokens) (clock last) 0 tokens r
unfolding cleanup_expired_refresh_tokens
cleanup_expired-Cleaned fuel batch clock tokens ticks some_batch h =
    let (r, last, run, earlier, c) =
      cleanup_from-Cleaned (λ now. is_dead now tokens) clock batch (is_dead-grows tokens) ticks
        some_batch fuel 0 tokens h in
    (
      r,
      last,
      expired_from-cleanup_from batch clock ticks tokens fuel 0 tokens (λ m family k. refl) ∙ run,
      earlier,
      c,
    )
