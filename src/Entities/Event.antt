-- ===== src/Entities/Event.antt =====
-- messaging/order-placed.event.ts: the event that a checkout writes to the outbox.
use one_marketplace.Base.{ℕ, List, ◌++◌, map}
use one_marketplace.Base.Text.{Text, codes}

abbrev pub order_aggregate_type : Text
order_aggregate_type = codes "Order"

abbrev pub order_placed_type : Text
order_placed_type = codes "order.placed"

-- A line with the price at which it was sold; `product_id` is the text of the request.
pub record PricedLine : Type 0 where
  pub product_id : Text
  pub quantity : ℕ
  pub unit_price : ℕ

pub record OrderPlacedData : Type 0 where
  pub order_id : Text
  pub user_id : ℕ
  pub total : ℕ
  pub items : List PricedLine

pub record OrderPlacedEvent : Type 0 where
  pub event_id : Text
  pub type : Text
  pub occurred_at : ℕ
  pub body : OrderPlacedData

pub record OrderPlacedSource : Type 0 where
  pub id : Text
  pub user_id : ℕ
  pub total : ℕ
  pub created_at : ℕ
  pub items : List PricedLine

unfoldable pub order_placed_event_id : Text → Text
order_placed_event_id order_id = codes "order.placed:" ++ order_id

unfoldable pub to_order_placed_event : OrderPlacedSource → OrderPlacedEvent
unfolding order_placed_event_id
to_order_placed_event order = record {
  event_id = order_placed_event_id order.id;
  type = order_placed_type;
  occurred_at = order.created_at;
  body = record {
    order_id = order.id;
    user_id = order.user_id;
    total = order.total;
    items =
        map
          (λ (item : PricedLine). record {
            product_id = item.product_id;
            quantity = item.quantity;
            unit_price = item.unit_price;
          })
          order.items;
  };
}
