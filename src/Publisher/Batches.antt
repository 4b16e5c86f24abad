-- ===== src/Publisher/Batches.antt =====
-- Batches that go through the publisher (messaging/order-placed.publisher.ts).
use one_marketplace.Base.{
  ℕ, zero, suc, ◌+◌, ◌≡◌, refl, Bool, true, false, List, [], inl, inr, ok, err, Outcome, arith,
  Bool-cases, Option-cases, ==_refl, if◌then◌else◌, sym, ◌⊎◌, subst,
}
use one_marketplace.Base.Table.{delete, select}
use one_marketplace.Entities.{Outbox}
use one_marketplace.Relay.{
  Publish, confirmed, returned, broken, Environment, RelayState, RelayOutcome, Settled, Rounds,
  contains, next_row, relay_row, relay_round, relay_from,
}
use one_marketplace.Relay.Progress.{after_round}
use one_marketplace.Publisher.Channel.{
  Publisher, BrokerReply, on_return, receive, take_returned, publish_event, to_publish, through,
  publisher_after, publish_from,
}

abbrev pub opened : Publisher
opened = record { channel = true; returned_ids = [] }

-- The broker's own answer to a message.
abbrev pub answer : BrokerReply → Publish
answer reply = if reply.confirms then (if reply.unroutable then returned else confirmed) else broken

abbrev pub answers : (Outbox → BrokerReply) → Environment → Environment
answers reply env = record env { publish = λ row. answer (reply row) }

publish_event-answer :
    (u c : Bool) (id : ℕ)
    → let reply : BrokerReply = record { unroutable = u; confirms = c } in
      to_publish (publish_event reply id opened).0 ≡ answer reply
unfolding publish_event receive on_return take_returned contains to_publish
publish_event-answer true true id = ground (arith, ==_refl id)
publish_event-answer false true id = refl
publish_event-answer true false id = refl
publish_event-answer false false id = refl

-- A publish that is confirmed leaves the publisher as it was.
publish_event-kept :
    (u c : Bool) (id : ℕ)
    → c ≡ true
    → (publish_event (record { unroutable = u; confirms = c }) id opened).1 ≡ opened
unfolding publish_event receive on_return take_returned contains delete select
publish_event-kept true true id h = ground (arith, ==_refl id)
publish_event-kept false true id h = refl
publish_event-kept u false id h = absurd (ground arith)

through-answers :
    (reply : Outbox → BrokerReply) (env : Environment)
    → through reply opened env ≡ answers reply env
unfolding through
through-answers reply env i = record env {
  publish = λ row. publish_event-answer (reply row).unroutable (reply row).confirms row.id i;
}

relay_row-ended :
    (env : Environment) (skipped : List ℕ) (row : Outbox) (reply : Publish) (s : RelayState)
    → reply ≡ broken
    → (relay_row env skipped row reply s).0 ≡ err tt
unfolding relay_row
relay_row-ended env skipped row confirmed s h = absurd (ground arith)
relay_row-ended env skipped row returned s h = absurd (ground arith)
relay_row-ended env skipped row broken s h = refl

-- A round leaves the publisher as it was, or breaks off.
round-opened :
    (reply : Outbox → BrokerReply) (env : Environment) (skipped : List ℕ) (s : RelayState)
    → ((relay_round (answers reply env) skipped s).0 ≡ err tt)
      ⊎ (publisher_after reply skipped s opened ≡ opened)
unfolding relay_round publisher_after
round-opened reply env skipped s = elim (Option-cases (next_row skipped s.outbox)) [
  | inl e ↦ inr (rw (e, publisher_after) refl)
  | inr (row, e) ↦ elim (Bool-cases (reply row).confirms) [
    | inl c ↦ inr (rw (e, publisher_after) (publish_event-kept (reply row).unroutable _ row.id c))
    | inr c ↦ inl (
        rw (e, relay_round)
          (relay_row-ended (answers reply env) skipped row (answer (reply row)) s
            (ground (arith, c))))
  ]
]

-- A batch through a publisher, against a batch with answers: it ends the same way, and when it does
-- not throw, a publisher as the one before is left.
pub record IsSame (r : Rounds × Publisher) (r' : Rounds) : Type 0 where
  pub same : r.0 ≡ r'
  pub left : (n : ℕ) → r.0.0 ≡ ok n → r.1 ≡ opened

-- What the loop does with the outcome of a round, and the publisher after it.
abbrev after_publish :
    ℕ → (Outbox → BrokerReply) → Environment → ℕ → Settled → Publisher → Rounds × Publisher
after_publish rounds reply env total round p = elim round.0 [
  | err e ↦ ((err e, round.1), p)
  | ok (outcome, skipped) ↦ elim outcome [
    | RelayOutcome.empty ↦ ((ok total, round.1), p)
    | RelayOutcome.published ↦ publish_from rounds reply env skipped (1 + total) round.1 p
    | RelayOutcome.failed ↦ publish_from rounds reply env skipped total round.1 p
  ]
]

module _ (rounds : ℕ) (reply : Outbox → BrokerReply) (env : Environment)
    (rest : (skipped : List ℕ) (total : ℕ) (s : RelayState)
      → IsSame
          (publish_from rounds reply env skipped total s opened)
          (relay_from rounds (answers reply env) skipped total s)) where
  settled-IsSame :
      (total : ℕ) (result : Outcome (Unit {0}) (RelayOutcome × List ℕ)) (s : RelayState)
      → IsSame
          (after_publish rounds reply env total (result, s) opened)
          (after_round rounds (answers reply env) total (result, s))
  settled-IsSame total (err e) s = record { same = refl; left = λ n h. refl }
  settled-IsSame total (ok (RelayOutcome.empty, skipped)) s = record {
    same = refl;
    left = λ n h. refl;
  }
  settled-IsSame total (ok (RelayOutcome.published, skipped)) s = rest skipped (1 + total) s
  settled-IsSame total (ok (RelayOutcome.failed, skipped)) s = rest skipped total s

  round-IsSame :
      (total : ℕ) (round : Settled) (p : Publisher)
      → (round.0 ≡ err tt) ⊎ (p ≡ opened)
      → IsSame
          (after_publish rounds reply env total round p)
          (after_round rounds (answers reply env) total round)
  round-IsSame total round p (inr kept) =
      subst
        (λ q.
          IsSame (after_publish rounds reply env total round q)
            (after_round rounds (answers reply env) total round))
        (sym kept) (settled-IsSame total round.0 round.1)
  round-IsSame total round p (inl broke) =
      rw broke (record { same = refl; left = λ n h. absurd (ground arith) })

-- A batch that goes through a publisher, whose channel is open and which has no id of a message
-- returned before, ends as it would with the broker's own answers to its messages, and unless it
-- throws, such a publisher is left.
pub publish_from-IsSame :
    (rounds : ℕ) (reply : Outbox → BrokerReply) (env : Environment) (skipped : List ℕ) (total : ℕ)
    (s : RelayState)
    → IsSame
        (publish_from rounds reply env skipped total s opened)
        (relay_from rounds (answers reply env) skipped total s)
unfolding publish_from relay_from
publish_from-IsSame zero reply env skipped total s = record { same = refl; left = λ n h. refl }
publish_from-IsSame (suc rounds) reply env skipped total s =
    subst
      (λ e.
        IsSame
          (after_publish rounds reply env total (relay_round e skipped s)
            (publisher_after reply skipped s opened))
          (after_round rounds (answers reply env) total
            (relay_round (answers reply env) skipped s)))
      (sym (through-answers reply env))
      (round-IsSame rounds reply env (publish_from-IsSame rounds reply env) total _ _
        (round-opened reply env skipped s))
