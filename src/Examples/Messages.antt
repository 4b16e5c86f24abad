-- ===== src/Examples/Messages.antt =====
-- The event of the order on its way: the relay sends it, the consumer issues the receipt.
use one_marketplace.Base.{
  ℕ, ◌≡◌, ◌<◌, refl, true, false, some, [], ◌∷◌, inr, ok, arith, ◌==◌, if◌then◌else◌,
}
use one_marketplace.Base.Text.{
  Text, codes, text_eq, is_id, all_digits, is_digit, number, number_from,
}
use one_marketplace.Base.Table.{first, exists, count}
use one_marketplace.Entities.{to_order_placed_event, order_placed_event_id}
use one_marketplace.Checkout.Transaction.{transaction}
use one_marketplace.Relay.{
  Publish, Environment, RelayState, contains, is_unpublished, is_selectable, relay_from,
}
use one_marketplace.Relay.Taken.{IsCalm, Relayed, selectable}
use one_marketplace.Relay.Progress.{relay_from-Relayed}
use one_marketplace.Consumer.Message.{
  ConsumeMessage, IncomingEvent, matches, fits, hex_value, uuid_value, uuid_pattern, contract,
  parse_message, to_content,
}
use one_marketplace.Consumer.Service.{
  Consumer, Delivery, Link, no_stats, is_marked, mark_processed, has_receipt, has_event,
  issue_receipt, after_mark, apply_body, apply_order_placed, over, concluded, handle, handle_all,
}
use one_marketplace.Consumer.Accounts.{IsAccounted, handle_all-IsAccounted}
use one_marketplace.Consumer.Once.{IsSkipped, handle-once, parse_message-to_content}
use one_marketplace.Examples.Shop.{ordered, source, outbox_of}

-- Row 1 has no queue to go to.
abbrev pub env : Environment
env = record {
  publish = λ row. if row.id == 1 then Publish.returned else Publish.confirmed;
  after_publish_throws = λ row. false;
  now = 9000;
}

abbrev pub unsent : RelayState
unsent = record { outbox = outbox_of 1 ∷ outbox_of 2 ∷ []; sent = [] }

env-IsCalm : IsCalm env
env-IsCalm = record { hook = λ row. refl; answers = λ row. ground arith }

few-selectable : selectable [] unsent < 100
unfolding count is_selectable is_unpublished contains
few-selectable = omega arith

relay_from-Relayed_example :
    (n : ℕ) × (s' : RelayState) × (relay_from 100 env [] 0 unsent ≡ (ok n, s'))
    × Relayed env [] 0 unsent n s'
unfolding first
relay_from-Relayed_example =
    relay_from-Relayed 100 env [] 0 unsent env-IsCalm (refl, (refl, tt)) few-selectable

abbrev uuid : Text
uuid = codes "0123abcd-0123-4567-89ab-0123456789ab"

abbrev event : IncomingEvent
event = record {
  message_id = uuid;
  event_id = codes "order.placed:3";
  order_id = codes "3";
  total = 700;
}

abbrev message : ConsumeMessage
message = record {
  message_id = some uuid;
  content = some (to_content (to_order_placed_event source));
}

abbrev consumer : Consumer
consumer = record { db = ordered; stats = no_stats }

-- The hook throws after the first delivery's commit.
abbrev thrown : Delivery
thrown = record { message = message; link = Link.up; now = 9500; on_effect_throws = true }

abbrev calm : Delivery
calm = record thrown { now = 9600; on_effect_throws = false }

handle_all-IsAccounted_example : IsAccounted 0 (handle_all (thrown ∷ calm ∷ []) consumer)
handle_all-IsAccounted_example = handle_all-IsAccounted 0 (thrown ∷ calm ∷ []) consumer (record {
  one_receipt = tt;
  verdicts = refl;
  acked = omega arith;
  results = omega arith;
  effects = omega arith;
  receipts = omega arith;
})

uuid-matches : matches uuid_pattern uuid ≡ true
unfolding matches fits hex_value
uuid-matches = refl

three-is_id : is_id source.id ≡ true
unfolding is_id all_digits is_digit
three-is_id = refl

parse_message-to_content_example :
    parse_message message
    ≡ ok (record {
      message_id = uuid;
      event_id = (to_order_placed_event source).event_id;
      order_id = source.id;
      total = source.total;
    })
parse_message-to_content_example = parse_message-to_content uuid source uuid-matches three-is_id

message-event : parse_message message ≡ ok event
unfolding parse_message matches fits hex_value contract to_content to_order_placed_event
    order_placed_event_id text_eq is_id all_digits is_digit
message-event = refl

effect-one : (handle thrown consumer).1.stats.effect ≡ 1
unfolding handle parse_message matches fits hex_value contract to_content to_order_placed_event
    order_placed_event_id text_eq is_id all_digits is_digit apply_order_placed transaction
    apply_body after_mark mark_processed is_marked issue_receipt has_receipt has_event exists over
    concluded uuid_value number number_from
effect-one = refl

handle-once_example :
    IsSkipped
      (handle_all (calm ∷ []) (handle thrown consumer).1)
      (handle calm (handle_all (calm ∷ []) (handle thrown consumer).1))
handle-once_example =
    handle-once thrown calm (calm ∷ []) consumer event message-event (inr effect-one) refl refl
