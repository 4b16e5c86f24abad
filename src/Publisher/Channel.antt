-- ===== src/Publisher/Channel.antt =====
-- messaging/order-placed.publisher.ts. The broker's answers are parameters; a message has the id of
-- its outbox row. A publisher has one publish at a time, as the relay awaits each.
use one_marketplace.Base.{
  ℕ, zero, suc, ◌+◌, Bool, true, false, not, none, some, List, [], ◌∷◌, Outcome, ok, err, ◌==◌,
  if◌then◌else◌,
}
use one_marketplace.Base.Table.{delete}
use one_marketplace.Entities.{Outbox}
use one_marketplace.Relay.{
  Publish, confirmed, returned, broken, Environment, RelayState, RelayOutcome, Rounds, contains,
  next_row, relay_round,
}

-- Whether the channel is open, and the ids of the messages that were returned.
pub record Publisher : Type 0 where
  pub channel : Bool
  pub returned_ids : List ℕ

abbrev pub new_publisher : Publisher
new_publisher = record { channel = false; returned_ids = [] }

-- open: the channel is kept once the exchange is asserted.
unfoldable pub open_channel : Bool → Publisher → Outcome (Unit {0}) (Unit {0}) × Publisher
open_channel asserted p = if asserted then (ok tt, record p { channel = true }) else (err tt, p)

-- The broker's part: it returns a message that it can route to no queue, before it confirms; the
-- wait for the confirms ends with them or throws.
pub record BrokerReply : Type 0 where
  pub unroutable : Bool
  pub confirms : Bool

-- channel.on('return'): the set of ids gets the message's.
unfoldable pub on_return : ℕ → Publisher → Publisher
on_return id p =
    if contains id p.returned_ids then p else record p { returned_ids = id ∷ p.returned_ids }

unfoldable pub receive : BrokerReply → ℕ → Publisher → Publisher
unfolding on_return
receive reply id p = if reply.unroutable then on_return id p else p

pub data PublishError : Type 0 where
  not_open unconfirmed : PublishError
  unroutable_event : ℕ → PublishError

-- The end of `publish`: `returned.delete(messageId)` says whether the id was there.
unfoldable pub take_returned : ℕ → Publisher → Outcome PublishError (Unit {0}) × Publisher
take_returned id p =
    if contains id p.returned_ids
    then (
      err (unroutable_event id),
      record p { returned_ids = delete (λ x. x == id) p.returned_ids },
    )
    else (ok tt, p)

unfoldable pub publish_event :
    BrokerReply → ℕ → Publisher → Outcome PublishError (Unit {0}) × Publisher
unfolding receive take_returned
publish_event reply id p =
    let received = receive reply id p in
    if not p.channel
    then (err not_open, p)
    else if reply.confirms
    then take_returned id received
    else (err unconfirmed, received)

-- What the relay makes of it: only an UnroutableEventError does not end the batch.
unfoldable pub to_publish : Outcome PublishError (Unit {0}) → Publish
to_publish (ok u) = confirmed
to_publish (err not_open) = broken
to_publish (err unconfirmed) = broken
to_publish (err (unroutable_event id)) = returned

-- The relay's environment, the broker answering through the publisher.
unfoldable pub through : (Outbox → BrokerReply) → Publisher → Environment → Environment
unfolding publish_event to_publish
through reply p env = record env {
  publish = λ row. to_publish (publish_event (reply row) row.id p).0;
}

-- The publisher after a round.
unfoldable pub publisher_after :
    (Outbox → BrokerReply) → List ℕ → RelayState → Publisher → Publisher
unfolding publish_event
publisher_after reply skipped s p = elim (next_row skipped s.outbox) [
  | none ↦ p
  | some row ↦ (publish_event (reply row) row.id p).1
]

-- relayBatch's loop with a publisher, as `relay_from` is with its answers.
unfoldable pub publish_from :
    ℕ
    → (Outbox → BrokerReply)
    → Environment
    → List ℕ
    → ℕ
    → RelayState
    → Publisher
    → Rounds × Publisher
unfolding through publisher_after
publish_from zero reply env skipped total s p = ((ok total, s), p)
publish_from (suc rounds) reply env skipped total s p =
    let (result, s') = relay_round (through reply p env) skipped s in
    let p' = publisher_after reply skipped s p in
    elim result [
      | err e ↦ ((err e, s'), p')
      | ok (outcome, skipped') ↦ elim outcome [
        | RelayOutcome.empty ↦ ((ok total, s'), p')
        | RelayOutcome.published ↦ publish_from rounds reply env skipped' (1 + total) s' p'
        | RelayOutcome.failed ↦ publish_from rounds reply env skipped' total s' p'
      ]
    ]
