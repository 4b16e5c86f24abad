-- ===== src/Cleanup/Service.antt =====
-- messaging/outbox-cleanup.ts, `cleanupOutbox`: the statement and the loop around it.
use one_marketplace.Base.{
  ℕ, zero, suc, ◌+◌, ◌-◌, ◌*◌, Bool, false, ◌&&◌, Option, none, some, List, [], ◌∷◌, ltb,
  if◌then◌else◌,
}
use one_marketplace.Entities.{Outbox}

abbrev pub outbox_retention_days : ℕ
outbox_retention_days = 7

abbrev pub outbox_cleanup_batch : ℕ
outbox_cleanup_batch = 1000

abbrev pub day_ms : ℕ
day_ms = 86400000

-- published_at < now() - make_interval(days => :days)
unfoldable pub is_outdated : ℕ → ℕ → Outbox → Bool
is_outdated days now row = elim row.published_at [
  | none ↦ false
  | some t ↦ ltb (t + days * day_ms) now
]

-- DELETE ... WHERE id IN (SELECT id ... LIMIT :limit): the rows affected, and those left. Which of
-- the rows a LIMIT takes is the database's choice; here it takes the first.
unfoldable pub delete_some : {A : Type 0} → ℕ → (A → Bool) → List A → ℕ × List A
delete_some limit p [] = (0, [])
delete_some limit p (x ∷ xs) =
    let taken = p x && ltb 0 limit in
    let (n, rest) = delete_some (if taken then limit - 1 else limit) p xs in
    if taken then (suc n, rest) else (n, x ∷ rest)

-- The loop: `clock` is the time of the batch at which so much fuel is left; `none` means that the
-- fuel ran out.
unfoldable pub cleanup_from :
    {A : Type 0} → ℕ → ℕ → (ℕ → A → Bool) → (ℕ → ℕ) → ℕ → List A → Option (ℕ × List A)
cleanup_from zero batch p clock deleted rows = none
cleanup_from (suc fuel) batch p clock deleted rows =
    let (affected, left) = delete_some batch (p (clock fuel)) rows in
    let more = cleanup_from fuel batch p clock (deleted + affected) left in
    if ltb affected batch then some (deleted + affected, left) else more

unfoldable pub cleanup_outbox : ℕ → ℕ → ℕ → (ℕ → ℕ) → List Outbox → Option (ℕ × List Outbox)
cleanup_outbox fuel days batch clock rows = cleanup_from fuel batch (is_outdated days) clock 0 rows
