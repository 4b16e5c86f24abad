-- ===== src/OrderEvents/Service.antt =====
-- services/order-events.service.ts: the class, with its `Map` as the list of its entries in the
-- order of insertion, and its subject as the events that it has emitted.
use one_marketplace.Base.{ℕ, ◌+◌, List, [], ◌∷◌, ◌++◌, length, ltb, if◌then◌else◌}
use one_marketplace.Base.Text.{Text, text_eq}
use one_marketplace.Base.Table.{select}
use one_marketplace.Entities.{OrderStatus}

pub record OrderStatusEvent : Type 0 where
  pub id : ℕ
  pub order_id : Text
  pub status : OrderStatus
  pub changed_at : ℕ

abbrev pub buffer_size : ℕ
buffer_size = 100

abbrev pub max_orders : ℕ
max_orders = 1000

abbrev pub Buffers : Type 0
Buffers = List (Text × List OrderStatusEvent)

pub record OrderEventsService : Type 0 where
  pub buffers : Buffers
  pub emitted : List OrderStatusEvent

abbrev pub init : OrderEventsService
init = record { buffers = []; emitted = [] }

-- this.buffers.get(orderId) ?? []
unfoldable pub get : Text → Buffers → List OrderStatusEvent
get order_id [] = []
get order_id ((key, buffer) ∷ rest) =
    let other = get order_id rest in if text_eq key order_id then buffer else other

-- this.buffers.delete(orderId)
unfoldable pub remove : Text → Buffers → Buffers
remove order_id [] = []
remove order_id ((key, buffer) ∷ rest) =
    let other = remove order_id rest in
    if text_eq key order_id then other else (key, buffer) ∷ other

-- buffer.at(-1)?.id ?? 0
unfoldable pub last_id : List OrderStatusEvent → ℕ
last_id [] = 0
last_id (event ∷ []) = event.id
last_id (event ∷ next ∷ rest) = last_id (next ∷ rest)

-- if (buffer.length > BUFFER_SIZE) buffer.shift()
unfoldable pub trim : List OrderStatusEvent → List OrderStatusEvent
trim [] = []
trim (event ∷ rest) = if ltb buffer_size (length (event ∷ rest)) then rest else event ∷ rest

-- if (this.buffers.size > MAX_ORDERS), the first key is deleted.
unfoldable pub evict : Buffers → Buffers
unfolding remove
evict [] = []
evict ((key, buffer) ∷ rest) =
    if ltb max_orders (length ((key, buffer) ∷ rest))
    then remove key ((key, buffer) ∷ rest)
    else (key, buffer) ∷ rest

unfoldable pub next_event : ℕ → Text → OrderStatus → OrderEventsService → OrderStatusEvent
unfolding get last_id
next_event now order_id status service = record {
  id = last_id (get order_id service.buffers) + 1;
  order_id = order_id;
  status = status;
  changed_at = now;
}

unfoldable pub publish :
    ℕ → Text → OrderStatus → OrderEventsService → OrderEventsService × OrderStatusEvent
unfolding next_event trim evict
publish now order_id status service =
    let event = next_event now order_id status service in
    let buffer = trim (get order_id service.buffers ++ event ∷ []) in
    (
      record {
        buffers = evict (remove order_id service.buffers ++ (order_id, buffer) ∷ []);
        emitted = service.emitted ++ event ∷ [];
      },
      event,
    )

-- What `streamFor` passes on of the events emitted.
unfoldable pub stream_for : Text → OrderEventsService → List OrderStatusEvent
stream_for order_id service = select (λ event. text_eq event.order_id order_id) service.emitted

unfoldable pub missed_since : Text → ℕ → OrderEventsService → List OrderStatusEvent
unfolding get
missed_since order_id last_event_id service =
    select (λ event. ltb last_event_id event.id) (get order_id service.buffers)
