-- ===== src/RelayProcess/Kept.antt =====
-- No event is lost in the relay process (relay.ts), however it ends.
use one_marketplace.Base.{
  ℕ, zero, suc, ◌+◌, ◌≡◌, Bool, true, false, ◌&&◌, some, inl, inr, ◌⊎◌, List, [], ◌∷◌, length,
  Outcome, ok, err, leb, ◌==◌, arith, Bool-cases, Option-cases, Outcome-cases,
}
use one_marketplace.Base.Table.{exists, exists-append, update}
use one_marketplace.Entities.{Outbox}
use one_marketplace.Relay.{
  Publish, confirmed, returned, broken, Environment, RelayState, RelayOutcome, contains,
  is_unpublished, next_row, mark_failed, mark_published, relay_row, relay_round, relay_batch_size,
  Rounds,
}
use one_marketplace.Publisher.{
  Publisher, open_channel, BrokerReply, publish_from, through, publisher_after,
}
use one_marketplace.Cleanup.{
  outbox_retention_days, outbox_cleanup_batch, is_outdated, cleanup_outbox,
}
use one_marketplace.RelayProcess.Rows.{exists-update, cleanup_from-ends}
use one_marketplace.RelayProcess.Main.{
  RelayProcess, RelayTurn, arrive, after_cleanup, cleanup_if_due, cleaned_outbox, unhooked,
  relay_once, relay_turn, after_batch, after_turn, relay_loop, relay_main,
}

module _ (id : ℕ) where
  abbrev pub is_unsent : Outbox → Bool
  is_unsent row = row.id == id && is_unpublished row.published_at

  -- The event of the id waits in the outbox, or the broker confirmed it.
  abbrev pub IsKept : RelayState → Type 0
  IsKept s = (exists is_unsent s.outbox ≡ true) ⊎ (contains id s.sent ≡ true)

  confirmed-IsKept :
      (now : ℕ) (row : Outbox) (s : RelayState)
      → IsKept s
      → IsKept (record {
        outbox = update (λ r. r.id == row.id) (mark_published now) s.outbox;
        sent = row.id ∷ s.sent;
      })
  unfolding contains
  confirmed-IsKept now row s (inr k) = inr (ground (arith, k))
  confirmed-IsKept now row s (inl k) = elim (Bool-cases (row.id == id)) [
    | inl same ↦ inr (ground (arith, same))
    | inr other ↦ inl (
        exists-update is_unsent (λ r. r.id == row.id) (mark_published now) s.outbox
          (λ r its pending. absurd (ground (arith, other, its, pending))) k)
  ]

  sent-IsKept :
      (row : Outbox) (s : RelayState) → IsKept s → IsKept (record s { sent = row.id ∷ s.sent })
  unfolding contains
  sent-IsKept row s (inl k) = inl k
  sent-IsKept row s (inr k) = inr (ground (arith, k))

  relay_row-IsKept :
      (env : Environment) (skipped : List ℕ) (row : Outbox) (reply : Publish) (s : RelayState)
      → IsKept s
      → IsKept (relay_row env skipped row reply s).1
  unfolding relay_row
  relay_row-IsKept env skipped row broken s k = k
  relay_row-IsKept env skipped row returned s (inr k) = inr k
  relay_row-IsKept env skipped row returned s (inl k) =
      inl (exists-update is_unsent (λ r. r.id == row.id) mark_failed s.outbox (λ r its p. p) k)
  relay_row-IsKept env skipped row confirmed s k =
      elim (Bool-cases (env.after_publish_throws row)) [
        | inl thrown ↦ rw thrown (sent-IsKept row s k)
        | inr calm ↦ rw calm (confirmed-IsKept env.now row s k)
      ]

  relay_round-IsKept :
      (env : Environment) (skipped : List ℕ) (s : RelayState)
      → IsKept s
      → IsKept (relay_round env skipped s).1
  unfolding relay_round
  relay_round-IsKept env skipped s k = elim (Option-cases (next_row skipped s.outbox)) [
    | inl e ↦ rw (e, relay_round) k
    | inr (row, e) ↦ rw (e, relay_round) (relay_row-IsKept env skipped row (env.publish row) s k)
  ]

  publish_from-IsKept :
      (rounds : ℕ) (reply : Outbox → BrokerReply) (env : Environment) (skipped : List ℕ) (total : ℕ)
      (s : RelayState) (p : Publisher)
      → IsKept s
      → IsKept (publish_from rounds reply env skipped total s p).0.1
  unfolding publish_from
  publish_from-IsKept zero reply env skipped total s p k = k
  publish_from-IsKept (suc rounds) reply env skipped total s p k =
      let k' = relay_round-IsKept (through reply p env) skipped s k in
      let p' = publisher_after reply skipped s p in
      elim (Outcome-cases (relay_round (through reply p env) skipped s).0) [
        | inr (e, broke) ↦ rw (broke, publish_from) k'
        | inl ((RelayOutcome.empty, skipped'), went) ↦ rw (went, publish_from) k'
        | inl ((RelayOutcome.published, skipped'), went) ↦
            rw (went, publish_from)
              (publish_from-IsKept rounds reply env skipped' (1 + total) _ p' k')
        | inl ((RelayOutcome.failed, skipped'), went) ↦
            rw (went, publish_from) (publish_from-IsKept rounds reply env skipped' total _ p' k')
      ]

  arrive-IsKept :
      (turn : RelayTurn) (s : RelayProcess) → IsKept s.relay → IsKept (arrive turn s).relay
  arrive-IsKept turn s (inl k) =
      inl (rw (exists-append is_unsent s.relay.outbox turn.arrivals) (ground (arith, k)))
  arrive-IsKept turn s (inr k) = inr k

  outdated-is_unsent :
      (days now : ℕ) (row : Outbox) → is_outdated days now row ≡ true → is_unsent row ≡ false
  unfolding is_outdated is_unpublished
  outdated-is_unsent days now row h = elim (Option-cases row.published_at) [
    | inl e ↦ absurd (ground (arith, e, h))
    | inr (at, e) ↦ ground (arith, e)
  ]

  -- The cleanup's fuel is enough.
  cleaned_outbox-ends :
      (turn : RelayTurn) (outbox : List Outbox)
      → (r : ℕ × List Outbox) × (cleaned_outbox turn outbox ≡ some r)
        × (exists is_unsent outbox ≡ true → exists is_unsent r.1 ≡ true)
  unfolding cleanup_outbox
  cleaned_outbox-ends turn outbox =
      cleanup_from-ends is_unsent (is_outdated outbox_retention_days) turn.clock
        outbox_cleanup_batch (suc (length outbox)) 0 outbox
        (outdated-is_unsent outbox_retention_days) (omega arith) (omega arith)

  cleanup_if_due-IsKept :
      (turn : RelayTurn) (s : RelayProcess) → IsKept s.relay → IsKept (cleanup_if_due turn s).relay
  unfolding cleanup_if_due after_cleanup
  cleanup_if_due-IsKept turn s k = elim (Bool-cases (leb s.next_cleanup_at turn.checked_at)) [
    | inl due ↦
        let (r, run, kept) = cleaned_outbox-ends turn s.relay.outbox in
        rw (due, run) (elim k [ inl waits ↦ inl (kept waits) | inr sent ↦ inr sent ])
    | inr early ↦ rw early k
  ]

  after_batch-IsKept :
      (batch : Rounds × Publisher) (s : RelayProcess)
      → IsKept batch.0.1
      → IsKept (after_batch batch s).1.relay
  unfolding after_batch
  after_batch-IsKept ((err e, relay), publisher) s k = k
  after_batch-IsKept ((ok n, relay), publisher) s k = k

  relay_turn-IsKept :
      (turn : RelayTurn) (s : RelayProcess) → IsKept s.relay → IsKept (relay_turn turn s).1.relay
  unfolding relay_turn relay_once
  relay_turn-IsKept turn s k =
      let due = cleanup_if_due-IsKept turn _ (arrive-IsKept turn s k) in
      after_batch-IsKept _ _
        (publish_from-IsKept relay_batch_size turn.reply (unhooked turn.now) [] 0 _ _ due)

  after_turn-IsKept :
      (result : Outcome (Unit {0}) (Unit {0})) (s : RelayProcess)
      (rest : Outcome (Unit {0}) (Unit {0}) × RelayProcess)
      → IsKept s.relay
      → IsKept rest.1.relay
      → IsKept (after_turn result s rest).1.relay
  unfolding after_turn
  after_turn-IsKept (err e) s rest k k' = k
  after_turn-IsKept (ok u) s rest k k' = k'

  relay_loop-IsKept :
      (turns : List RelayTurn) (s : RelayProcess)
      → IsKept s.relay
      → IsKept (relay_loop turns s).1.relay
  unfolding relay_loop
  relay_loop-IsKept [] s k = k
  relay_loop-IsKept (turn ∷ turns) s k =
      let k' = relay_turn-IsKept turn s k in
      after_turn-IsKept _ _ _ k' (relay_loop-IsKept turns _ k')

  -- An event that waits in the outbox when the relay process starts, waits there when it ends or was
  -- confirmed by the broker, whatever the broker answers and whether the process stops or crashes.
  pub relay_main-IsKept :
      (asserted : Bool) (turns : List RelayTurn) (s : RelayState)
      → IsKept s
      → IsKept (relay_main asserted turns s).1.relay
  unfolding relay_main open_channel
  relay_main-IsKept true turns s k = relay_loop-IsKept turns _ k
  relay_main-IsKept false turns s k = k
