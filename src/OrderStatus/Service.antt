-- ===== src/OrderStatus/Service.antt =====
-- services/order-status.service.ts: the conditional update, and what follows it.
use one_marketplace.Base.{
  ℕ, Bool, true, false, not, leb, ◌&&◌, ◌||◌, Option, none, some, List, [], ◌∷◌, ◌++◌, Outcome, ok,
  err, ◌==◌, if◌then◌else◌,
}
use one_marketplace.Base.Text.{Text, number, is_id}
use one_marketplace.Base.Table.{first, count, update}
use one_marketplace.Entities.{Db, Order, OrderStatus, pending, paid, cancelled}
use one_marketplace.Checkout.Input.{int8_max}
use one_marketplace.OrderEvents.{OrderEventsService, OrderStatusEvent, publish}

-- The two reasons of the error that is thrown, and the error of a query that fails.
pub data OrderStatusFailure : Type 0 where
  order_not_found invalid_transition query_failed : OrderStatusFailure

unfoldable pub same_status : OrderStatus → OrderStatus → Bool
same_status pending pending = true
same_status paid paid = true
same_status cancelled cancelled = true
same_status _ _ = false

-- ALLOWED_PREVIOUS
unfoldable pub allowed_previous : OrderStatus → List OrderStatus
allowed_previous pending = paid ∷ []
allowed_previous paid = pending ∷ []
allowed_previous cancelled = pending ∷ paid ∷ []

-- status IN (:...previous)
unfoldable pub in_list : OrderStatus → List OrderStatus → Bool
unfolding same_status
in_list status [] = false
in_list status (x ∷ xs) = same_status status x || in_list status xs

-- A request to the refresher, for the products of the order: the order and its event's key.
pub record Refresh : Type 0 where
  pub order_id : Text
  pub status : OrderStatus
  pub changed_at : ℕ

pub record World : Type 0 where
  pub db : Db
  pub events : OrderEventsService
  pub refreshes : List Refresh

-- Whether a text is a number that the column can hold, else the query fails. What PostgreSQL reads
-- as a number besides digits, such as a sign, is left out: the callers pass digits only.
unfoldable pub is_bigint : Text → Bool
is_bigint order_id = is_id order_id && leb (number order_id) int8_max

-- WHERE id = :orderId AND status IN (:...previous)
abbrev pub moves : ℕ → OrderStatus → Order → Bool
moves id status o = o.id == id && in_list o.status (allowed_previous status)

abbrev pub set_status : OrderStatus → Order → Order
set_status status o = record o { status = status }

-- What follows an update that changed one row.
unfoldable pub announce : Bool → ℕ → Text → OrderStatus → World → World × OrderStatusEvent
announce has_refresher now order_id status w =
    let (events, event) = publish now order_id status w.events in
    (
      record w {
        events = events;
        refreshes =
            if has_refresher
            then w.refreshes
              ++ record { order_id = order_id; status = status; changed_at = event.changed_at } ∷ []
            else w.refreshes;
      },
      event,
    )

-- Which error is thrown, by the row that is found.
unfoldable pub failure : Option Order → OrderStatusFailure
failure none = order_not_found
failure (some o) = invalid_transition

-- `now` is the time of the event, `has_refresher` whether the optional refresher is given.
unfoldable pub change :
    Bool → ℕ → Text → OrderStatus → World → Outcome OrderStatusFailure OrderStatusEvent × World
unfolding allowed_previous in_list announce failure is_bigint
change has_refresher now order_id status w =
    let id = number order_id in
    let orders = update (moves id status) (set_status status) w.db.orders in
    let updated = record w { db = record w.db { orders = orders } } in
    if not (is_bigint order_id)
    then (err query_failed, w)
    else if count (moves id status) w.db.orders == 1
    then (let (w', event) = announce has_refresher now order_id status updated in (ok event, w'))
    else (err (failure (first (λ o. o.id == id) orders)), updated)
