-- ===== src/Examples/Relaying.antt =====
-- The relay process with a publisher, of which one message is returned.
use one_marketplace.Base.{refl, true, [], ◌∷◌, inl, ◌==◌}
use one_marketplace.Base.Table.{exists}
use one_marketplace.Entities.{Outbox}
use one_marketplace.Relay.{is_unpublished, relay_from}
use one_marketplace.Publisher.{BrokerReply, publish_from}
use one_marketplace.Publisher.Batches.{opened, answers, IsSame, publish_from-IsSame}
use one_marketplace.RelayProcess.{RelayTurn, relay_main}
use one_marketplace.RelayProcess.Kept.{IsKept, relay_main-IsKept}
use one_marketplace.Examples.Shop.{outbox_of}
use one_marketplace.Examples.Messages.{env, unsent}

abbrev reply : Outbox → BrokerReply
reply row = record { unroutable = row.id == 1; confirms = true }

publish_from-IsSame_example :
    IsSame
      (publish_from 100 reply env [] 0 unsent opened)
      (relay_from 100 (answers reply env) [] 0 unsent)
publish_from-IsSame_example = publish_from-IsSame 100 reply env [] 0 unsent

abbrev turn : RelayTurn
turn = record {
  arrivals = outbox_of 3 ∷ [];
  checked_at = 5000;
  clock = λ fuel. 5001;
  cleaned_at = 5002;
  reply = reply;
  now = 5003;
}

second-IsKept : IsKept 2 unsent
unfolding exists is_unpublished
second-IsKept = inl refl

relay_main-IsKept_example : IsKept 2 (relay_main true (turn ∷ turn ∷ []) unsent).1.relay
relay_main-IsKept_example = relay_main-IsKept 2 true (turn ∷ turn ∷ []) unsent second-IsKept
