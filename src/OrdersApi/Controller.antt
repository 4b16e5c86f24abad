-- ===== src/OrdersApi/Controller.antt =====
-- controllers/orders.controller.ts. The guards have passed: the user is authenticated. A path's id and
-- a header are texts.
use one_marketplace.Base.{
  ℕ, Bool, true, false, not, ◌&&◌, Option, none, some, List, [], ◌∷◌, map, Outcome, ok, err, ltb,
  ◌==◌, if◌then◌else◌,
}
use one_marketplace.Base.Text.{Text, is_id, number}
use one_marketplace.Entities.{Db, OrderItem, OrderStatus}
use one_marketplace.Checkout.Input.{
  CheckoutLine, CheckoutInput, Context, checkout_error, product_not_found, user_not_found, int8_max,
}
use one_marketplace.OrderEvents.{OrderStatusEvent, OrderEventsService, missed_since}
use one_marketplace.OrderStatus.{
  OrderStatusFailure, order_not_found, invalid_transition, query_failed, World, change,
}
use one_marketplace.PlaceOrder.{
  LoadedOrder, find_by_id, find_owner_id, PlacedOrder, PlaceFailure, idempotency_key_reused,
  order_disappeared, thrown, Meanwhile, place,
}

pub data HttpFailure : Type 0 where
  not_found conflict forbidden unprocessable internal : HttpFailure

pub record OrderItemResponse : Type 0 where
  pub product_id : ℕ
  pub quantity : ℕ
  pub price_cents : ℕ

pub record OrderResponse : Type 0 where
  pub id : ℕ
  pub user_id : ℕ
  pub created_at : ℕ
  pub status : OrderStatus
  pub items : List OrderItemResponse
  pub total_cents : ℕ

unfoldable pub to_order_response : LoadedOrder → OrderResponse
to_order_response loaded = record {
  id = loaded.order.id;
  user_id = loaded.order.user_id;
  created_at = loaded.order.created_at;
  status = loaded.order.status;
  items =
      map
        (λ (item : OrderItem). record {
          product_id = item.product_id;
          quantity = item.quantity;
          price_cents = item.unit_price;
        })
        loaded.items;
  total_cents = loaded.order.total;
}

-- An error that is not translated is answered with 500.
unfoldable pub translate_place_order_error : PlaceFailure → HttpFailure
translate_place_order_error idempotency_key_reused = unprocessable
translate_place_order_error order_disappeared = internal
translate_place_order_error (thrown (checkout_error product_not_found p)) = not_found
translate_place_order_error (thrown (checkout_error user_not_found p)) = not_found
translate_place_order_error (thrown (checkout_error _ p)) = conflict
translate_place_order_error (thrown _) = internal

unfoldable pub translate_order_status_error : OrderStatusFailure → HttpFailure
translate_order_status_error order_not_found = not_found
translate_order_status_error query_failed = internal
translate_order_status_error invalid_transition = conflict

unfoldable pub to_last_event_id : Option Text → Option ℕ
to_last_event_id none = none
to_last_event_id (some value) = if is_id value then some (number value) else none

-- `load`: a text that is no id is not looked up, and a number beyond bigint fails the query.
unfoldable pub load : Text → Db → Outcome HttpFailure LoadedOrder
load id db =
    if is_id id && ltb int8_max (number id)
    then err internal
    else elim (if is_id id then find_by_id (number id) db else none) [
      | none ↦ err not_found
      | some loaded ↦ ok loaded
    ]

unfoldable pub get_by_id : ℕ → Text → Db → Outcome HttpFailure OrderResponse
get_by_id user_id id db = elim (load id db) [
  | err e ↦ err e
  | ok loaded ↦
      if not (loaded.order.user_id == user_id) then err forbidden else ok (to_order_response loaded)
]

unfoldable pub all_ids : List CheckoutLine → Bool
all_ids [] = true
all_ids (line ∷ lines) = let rest = all_ids lines in if is_id line.product_id then rest else false

-- The answer, and whether it carries `Idempotency-Replay`.
unfoldable pub created_response :
    Outcome PlaceFailure PlacedOrder → Outcome HttpFailure (OrderResponse × Bool)
created_response (err e) = err (translate_place_order_error e)
created_response (ok placed) = ok (to_order_response placed.loaded, placed.replay)

unfoldable pub create :
    Context → Meanwhile → CheckoutInput → Db → Outcome HttpFailure (OrderResponse × Bool) × Db
create context meanwhile input db =
    let (result, after) = place context meanwhile input db in
    if all_ids input.items then (created_response result, after) else (err not_found, db)

unfoldable pub changed_response :
    Text → Outcome OrderStatusFailure OrderStatusEvent → Db → Outcome HttpFailure OrderResponse
changed_response id (err e) db = err (translate_order_status_error e)
changed_response id (ok event) db = elim (load id db) [
  | err e ↦ err e
  | ok loaded ↦ ok (to_order_response loaded)
]

unfoldable pub change_status :
    Bool → ℕ → Text → OrderStatus → World → Outcome HttpFailure OrderResponse × World
change_status has_refresher now id status w =
    let (result, after) = change has_refresher now id status w in
    if is_id id then (changed_response id result after.db, after) else (err not_found, w)

-- What `streamEvents` writes first: the missed events, or the error before the stream.
unfoldable pub opening : Text → Option ℕ → OrderEventsService → List OrderStatusEvent
opening id none events = []
opening id (some last_seen) events = missed_since id last_seen events

unfoldable pub stream_events :
    ℕ → Text → Option Text → World → Outcome HttpFailure (List OrderStatusEvent)
stream_events user_id id last_event_id w =
    if is_id id && ltb int8_max (number id)
    then err internal
    else elim (if is_id id then find_owner_id (number id) w.db else none) [
      | none ↦ err not_found
      | some owner_id ↦
          if not (owner_id == user_id)
          then err forbidden
          else ok (opening id (to_last_event_id last_event_id) w.events)
    ]
