-- ===== src/Examples/Requests.antt =====
-- Requests for orders of the shop.
use one_marketplace.Base.{
  ℕ, List, All, length, leb, ◌==◌, if◌then◌else◌, ◌≡◌, ◌⊎◌, refl, true, none, some, [], ◌∷◌, ok,
}
use one_marketplace.Base.Text.{
  Text, codes, number, number_from, is_id, all_digits, is_digit, text_eq, decimal, decimal_from,
}
use one_marketplace.Base.Texts.{sort_texts, insert_text, join, text_leb}
use one_marketplace.Base.Table.{first, select, count}
use one_marketplace.Entities.{Db, Order}
use one_marketplace.OrderEvents.{init, missed_since, get}
use one_marketplace.OrderStatus.{World}
use one_marketplace.PlaceOrder.{
  PlacedOrder, Meanwhile, place, find_existing, find_by_idempotency_key, find_owner_id, load_first,
  with_items, replay_of, is_same_request, normalize_lines, line_text, quantity_text, line_of,
}
use one_marketplace.PlaceOrder.Answers.{IsReplay, IsUntouched, IsPlacement, place-answer}
use one_marketplace.OrdersApi.{OrderResponse, to_last_event_id, opening, stream_events}
use one_marketplace.OrdersApi.Listing.{limit_of, list_orders}
use one_marketplace.OrdersApi.Listed.{IsNewestFirst, list_orders-own}
use one_marketplace.OrdersApi.Stream.{Emission, streamed, IsSent, streamed-IsSent}
use one_marketplace.Auth.{AuthenticatedUser}
use one_marketplace.Examples.Shop.{ann, ordered, placed_order, wants, noon}

abbrev three : Text
three = codes "3"

abbrev pub alone : Meanwhile
alone = record { first = λ db. db; second = λ db. db }

-- The shop after the request was placed before.
abbrev keyed : Db
keyed = record ordered {
  orders = record placed_order { idempotency_key = some (codes "k") } ∷ [];
  order_items =
      record { id = 1; order_id = 3; product_id = 1; quantity = 3; unit_price = 150 }
      ∷ record { id = 2; order_id = 3; product_id = 2; quantity = 1; unit_price = 400 }
      ∷ [];
}

abbrev replayed : PlacedOrder
replayed = record {
  loaded = record {
    order = record placed_order { idempotency_key = some (codes "k") };
    items = keyed.order_items;
  };
  replay = true;
}

place-replays : place noon alone (wants 3) keyed ≡ (ok replayed, keyed)
unfolding place find_existing find_by_idempotency_key load_first with_items replay_of
    is_same_request normalize_lines sort_texts insert_text join line_text quantity_text line_of
    text_leb first select text_eq decimal decimal_from
place-replays = refl

place-answer_example :
    (IsReplay (wants 3) replayed × IsUntouched alone keyed keyed)
    ⊎ IsPlacement noon alone (wants 3) keyed replayed keyed
place-answer_example = place-answer noon alone (wants 3) keyed keyed replayed place-replays

abbrev world : World
world = record { db = ordered; events = init; refreshes = [] }

stream-opens : stream_events 7 three (some (codes "0")) world ≡ ok []
unfolding stream_events is_id all_digits is_digit number number_from find_owner_id first
    to_last_event_id opening missed_since get select
stream-opens = refl

list_orders-own_example :
    All (λ (r : OrderResponse). r.user_id ≡ 7) (list_orders 7 none ordered)
    × IsNewestFirst (list_orders 7 none ordered)
    × (length (list_orders 7 none ordered) ≡ (
        if leb (limit_of none) (count (λ (o : Order). o.user_id == 7) ordered.orders)
        then limit_of none
        else count (λ (o : Order). o.user_id == 7) ordered.orders))
list_orders-own_example = list_orders-own 7 none ordered

abbrev user : AuthenticatedUser
user = record { id = 7; role = ann.role; session_id = 50; token_id = 8; expires_at = 690 }

-- An event while the user is valid, one of another order, and one after the expiry.
abbrev emission : Text → ℕ → Emission
emission order_id now = record {
  event = record { id = now; order_id = order_id; status = placed_order.status; changed_at = now };
  now = now;
  denylist = record { keys = []; synced = true; generation = 0 };
}

abbrev emitted : List Emission
emitted = emission (codes "3") 100 ∷ emission (codes "4") 200 ∷ emission (codes "3") 700 ∷ []

streamed-IsSent_example :
    IsSent user
      (select (λ (e : Emission). text_eq e.event.order_id (codes "3")) emitted)
      (streamed user (codes "3") emitted)
streamed-IsSent_example = streamed-IsSent user (codes "3") emitted
