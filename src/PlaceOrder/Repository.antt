-- ===== src/PlaceOrder/Repository.antt =====
-- repositories/orders.repository.ts: the reads of orders with their items.
use one_marketplace.Base.{ℕ, Bool, ◌&&◌, Option, none, some, List, ◌==◌}
use one_marketplace.Base.Text.{Text}
use one_marketplace.Base.Table.{select, first}
use one_marketplace.Entities.{Db, Order, OrderItem}
use one_marketplace.Checkout.Body.{same_key}

-- An order with its items in the order of their ids, in which the table holds them.
pub record LoadedOrder : Type 0 where
  pub order : Order
  pub items : List OrderItem

unfoldable pub with_items : Db → Order → LoadedOrder
with_items db order = record {
  order = order;
  items = select (λ item. item.order_id == order.id) db.order_items;
}

unfoldable pub load_first : (Order → Bool) → Db → Option LoadedOrder
load_first p db = elim (first p db.orders) [ none ↦ none | some order ↦ some (with_items db order) ]

unfoldable pub find_by_id : ℕ → Db → Option LoadedOrder
find_by_id id db = load_first (λ o. o.id == id) db

-- WHERE user_id = $1 AND idempotency_key = $2
unfoldable pub find_by_idempotency_key : ℕ → Text → Db → Option LoadedOrder
find_by_idempotency_key user_id key db =
    load_first (λ o. o.user_id == user_id && same_key o.idempotency_key (some key)) db

unfoldable pub find_owner_id : ℕ → Db → Option ℕ
find_owner_id id db = elim (first (λ o. o.id == id) db.orders) [
  | none ↦ none
  | some order ↦ some order.user_id
]
