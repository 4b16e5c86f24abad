-- ===== src/Relay/Delivery.antt =====
-- What a batch of the relay delivers: every event at least once, each row at most once a batch.
use one_marketplace.Base.{
  ℕ, zero, suc, ◌+◌, ◌≤◌, ◌≡◌, refl, true, some, List, [], ◌∷◌, inl, inr, ◌⊎◌, arith, Bool-cases,
  Option-cases, Outcome-cases, All,
}
use one_marketplace.Base.Keyed.{row_at, DistinctKeys}
use one_marketplace.Base.Ordered.{least-row, All-update_row, update_row-DistinctKeys}
use one_marketplace.Entities.{Outbox}
use one_marketplace.Relay.Batch.{
  Publish, confirmed, returned, broken, Environment, RelayState, RelayOutcome, relay_max_attempts,
  contains, is_unpublished, is_selectable, is_before, next_row, mark_failed, mark_published,
  relay_row, relay_round, relay_from,
}

abbrev pub DistinctRows : List Outbox → Type 0
DistinctRows = DistinctKeys (λ r. r.id)

-- A row that is marked as published was confirmed by the broker, and no row is tried too often.
abbrev IsHonest : List ℕ → Outbox → Type 0
IsHonest sent row =
    ((is_unpublished row.published_at ≡ true) ⊎ (contains row.id sent ≡ true))
    × (row.attempts ≤ relay_max_attempts)

pub record IsValid (s : RelayState) : Type 0 where
  pub distinct : DistinctRows s.outbox
  pub honest : All (IsHonest s.sent) s.outbox

pub next_row-row :
    (skipped : List ℕ) (outbox : List Outbox) (row : Outbox)
    → DistinctRows outbox
    → next_row skipped outbox ≡ some row
    → (row_at (λ r. r.id) row.id outbox ≡ some row) × (is_selectable skipped row ≡ true)
unfolding next_row
next_row-row skipped outbox row d e =
    least-row (λ (r : Outbox). r.id) is_before (is_selectable skipped) outbox row d e

All-IsHonest-sent :
    (id : ℕ) (sent : List ℕ) (rows : List Outbox)
    → All (IsHonest sent) rows
    → All (IsHonest (id ∷ sent)) rows
unfolding contains
All-IsHonest-sent id sent [] h = tt
All-IsHonest-sent id sent (row ∷ rows) h = (ground arith, All-IsHonest-sent id sent rows h.1)

relay_row-IsValid :
    (env : Environment) (skipped : List ℕ) (row : Outbox) (reply : Publish) (s : RelayState)
    → IsValid s
    → row_at (λ r. r.id) row.id s.outbox ≡ some row
    → is_selectable skipped row ≡ true
    → IsValid (relay_row env skipped row reply s).1
unfolding relay_row
relay_row-IsValid env skipped row broken s v h p = v
relay_row-IsValid env skipped row returned s v h p = record {
  distinct = update_row-DistinctKeys (λ r. r.id) mark_failed (λ x. refl) row.id s.outbox v.distinct;
  honest =
      All-update_row (λ r. r.id) (IsHonest s.sent) mark_failed row.id s.outbox row v.distinct h
        (unfold is_selectable in ground arith) v.honest;
}
relay_row-IsValid env skipped row confirmed s v h p =
    let honest = All-IsHonest-sent row.id s.sent s.outbox v.honest in
    elim (Bool-cases (env.after_publish_throws row)) [
      | inl thrown ↦ rw (thrown, relay_row) (record { distinct = v.distinct; honest = honest })
      | inr calm ↦
          rw (calm, relay_row)
            (record {
              distinct =
                  update_row-DistinctKeys (λ r. r.id) (mark_published env.now) (λ x. refl) row.id
                    s.outbox v.distinct;
              honest =
                  All-update_row (λ r. r.id) (IsHonest (row.id ∷ s.sent)) (mark_published env.now)
                    row.id s.outbox row v.distinct h (unfold is_selectable contains in ground arith)
                    honest;
            })
    ]

relay_round-IsValid :
    (env : Environment) (skipped : List ℕ) (s : RelayState)
    → IsValid s
    → IsValid (relay_round env skipped s).1
unfolding relay_round
relay_round-IsValid env skipped s v = elim (Option-cases (next_row skipped s.outbox)) [
  | inl e ↦ rw (e, relay_round) v
  | inr (row, e) ↦
      let (h, p) = next_row-row skipped s.outbox row v.distinct e in
      rw (e, relay_round) (relay_row-IsValid env skipped row (env.publish row) s v h p)
]

-- From rows with distinct ids, of which those marked as published were confirmed and none was
-- tried too often, the relay leaves such rows, whatever the broker answers and wherever the batch
-- breaks off.
pub relay_from-IsValid :
    (rounds : ℕ) (env : Environment) (skipped : List ℕ) (total : ℕ) (s : RelayState)
    → IsValid s
    → IsValid (relay_from rounds env skipped total s).1
unfolding relay_from
relay_from-IsValid zero env skipped total s v = v
relay_from-IsValid (suc rounds) env skipped total s v =
    let v' = relay_round-IsValid env skipped s v in
    elim (Outcome-cases (relay_round env skipped s).0) [
      | inr (e, broke) ↦ rw (broke, relay_from) v'
      | inl ((RelayOutcome.empty, skipped'), went) ↦ rw (went, relay_from) v'
      | inl ((RelayOutcome.published, skipped'), went) ↦
          rw (went, relay_from) (relay_from-IsValid rounds env skipped' (1 + total) _ v')
      | inl ((RelayOutcome.failed, skipped'), went) ↦
          rw (went, relay_from) (relay_from-IsValid rounds env skipped' total _ v')
    ]
