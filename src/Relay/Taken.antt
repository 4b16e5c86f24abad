-- ===== src/Relay/Taken.antt =====
-- What a round of the relay (messaging/outbox-relay.ts) that takes a row changes.
use one_marketplace.Base.{
  Bool, map, ◌&&◌, ℕ, ◌+◌, ◌≡◌, refl, true, false, some, List, ◌∷◌, ◌⊎◌, arith, ◌==◌, ==_refl,
}
use one_marketplace.Base.Table.{count, update}
use one_marketplace.Base.Keyed.{row_at}
use one_marketplace.Base.Ordered.{count-update_row, update_row-DistinctKeys}
use one_marketplace.Entities.{Outbox}
use one_marketplace.Relay.Batch.{
  confirmed, returned, Environment, RelayState, contains, is_unpublished, is_selectable,
  mark_failed, mark_published,
}
use one_marketplace.Relay.Rows.{is_confirmed, is_due, done, map-update_row}
use one_marketplace.Relay.Delivery.{DistinctRows}

abbrev pub selectable : List ℕ → RelayState → ℕ
selectable skipped s = count (is_selectable skipped) s.outbox

-- The broker answers every publish, and the hook throws nothing.
pub record IsCalm (env : Environment) : Type 0 where
  pub hook : (row : Outbox) → env.after_publish_throws row ≡ false
  pub answers : (row : Outbox) → (env.publish row ≡ confirmed) ⊎ (env.publish row ≡ returned)

-- How often a message was sent, and whether the batch is to send it.
abbrev pub times : ℕ → List ℕ → ℕ
times id sent = count (λ x. x == id) sent

abbrev pub due_of : Environment → List ℕ → ℕ → Outbox → Bool
due_of env skipped id row = row.id == id && is_due env skipped row

-- How the batch goes on from a state: what it returns and leaves, against what it found.
pub record Relayed (env : Environment) (skipped : List ℕ) (total : ℕ) (s : RelayState) (n : ℕ)
    (s' : RelayState) : Type 0 where
  pub counted : n ≡ total + count (is_due env skipped) s.outbox
  pub rows : s'.outbox ≡ map (done env skipped) s.outbox
  pub sent : (id : ℕ) → times id s'.sent ≡ times id s.sent + count (due_of env skipped id) s.outbox

-- A round that takes a row.
pub record Taken (env : Environment) (skipped skipped' : List ℕ) (gain : ℕ) (s s' : RelayState)
    : Type 0 where
  pub distinct : DistinctRows s'.outbox
  pub fewer : selectable skipped' s' + 1 ≡ selectable skipped s
  pub counted : gain + count (is_due env skipped') s'.outbox ≡ count (is_due env skipped) s.outbox
  pub rows : map (done env skipped') s'.outbox ≡ map (done env skipped) s.outbox
  pub sent :
      (id : ℕ)
      → times id s'.sent + count (due_of env skipped' id) s'.outbox
        ≡ times id s.sent + count (due_of env skipped id) s.outbox

pub failed-Taken :
    (env : Environment) (skipped : List ℕ) (row : Outbox) (s : RelayState)
    → DistinctRows s.outbox
    → row_at (λ r. r.id) row.id s.outbox ≡ some row
    → is_selectable skipped row ≡ true
    → is_confirmed (env.publish row) ≡ false
    → Taken env skipped
        (row.id ∷ skipped)
        0
        s
        (record s { outbox = update (λ r. r.id == row.id) mark_failed s.outbox })
unfolding is_selectable contains
failed-Taken env skipped row s d h p reply =
    let self = ==_refl row.id in
    let changed = count-update_row (λ (r : Outbox). r.id) row.id mark_failed in
    record {
      distinct = update_row-DistinctKeys (λ r. r.id) mark_failed (λ x. refl) row.id s.outbox d;
      fewer =
          let fewer =
            changed (is_selectable skipped) (is_selectable (row.id ∷ skipped)) (λ x e. ground arith)
              s.outbox row d h in
          ground (arith, fewer, self);
      counted =
          let same =
            changed (is_due env skipped) (is_due env (row.id ∷ skipped)) (λ x e. ground arith)
              s.outbox row d h in
          ground (arith, same, self, reply);
      rows =
          map-update_row (done env skipped) (done env (row.id ∷ skipped)) row.id mark_failed
            (λ x e. ground (arith, e)) s.outbox row d h (ground (arith, self, reply, p));
      sent = λ id.
          let same =
            changed (due_of env skipped id) (due_of env (row.id ∷ skipped) id) (λ x e. ground arith)
              s.outbox row d h in
          ground (arith, same, self, reply);
    }

pub published-Taken :
    (env : Environment) (skipped : List ℕ) (row : Outbox) (s : RelayState)
    → DistinctRows s.outbox
    → row_at (λ r. r.id) row.id s.outbox ≡ some row
    → is_selectable skipped row ≡ true
    → is_confirmed (env.publish row) ≡ true
    → Taken env skipped skipped 1 s (record s {
      sent = row.id ∷ s.sent;
      outbox = update (λ r. r.id == row.id) (mark_published env.now) s.outbox;
    })
unfolding is_selectable is_unpublished count
published-Taken env skipped row s d h p reply =
    let mark = mark_published env.now in
    let changed = count-update_row (λ (r : Outbox). r.id) row.id mark in
    record {
      distinct = update_row-DistinctKeys (λ r. r.id) mark (λ x. refl) row.id s.outbox d;
      fewer =
          let fewer =
            changed (is_selectable skipped) (is_selectable skipped) (λ x e. refl) s.outbox row d
              h in
          ground (arith, fewer);
      counted =
          let one =
            changed (is_due env skipped) (is_due env skipped) (λ x e. refl) s.outbox row d h in
          ground (arith, one, p, reply);
      rows =
          map-update_row (done env skipped) (done env skipped) row.id mark (λ x e. refl) s.outbox
            row d h (ground (arith, p, reply));
      sent = λ id.
          let one =
            changed (due_of env skipped id) (due_of env skipped id) (λ x e. refl) s.outbox row d
              h in
          ground (arith, one, p, reply);
    }
