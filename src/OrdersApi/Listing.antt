-- ===== src/OrdersApi/Listing.antt =====
-- repositories/orders.repository.ts, listByUser and countByStatus, and the listing of
-- controllers/orders.controller.ts.
use one_marketplace.Base.{
  ℕ, zero, suc, Option, none, some, List, [], ◌∷◌, map, leb, ◌==◌, if◌then◌else◌,
}
use one_marketplace.Base.Text.{Text, number}
use one_marketplace.Base.Table.{select, count}
use one_marketplace.Entities.{Db, Order, OrderStatus, pending, paid, cancelled}
use one_marketplace.OrderStatus.{same_status}
use one_marketplace.PlaceOrder.{LoadedOrder, with_items}
use one_marketplace.OrdersApi.Controller.{OrderResponse, to_order_response}

-- ORDER BY created_at DESC; of orders of one time, the database's choice is the table's order here.
unfoldable pub insert_order : Order → List Order → List Order
insert_order o [] = o ∷ []
insert_order o (p ∷ ps) =
    let rest = insert_order o ps in if leb p.created_at o.created_at then o ∷ p ∷ ps else p ∷ rest

unfoldable pub newest_first : List Order → List Order
newest_first [] = []
newest_first (o ∷ os) = insert_order o (newest_first os)

-- LIMIT, of at least 1: a limit of 0, which no valid request has, would be none to the library.
unfoldable pub take : {A : Type 0} → ℕ → List A → List A
take zero xs = []
take (suc n) [] = []
take (suc n) (x ∷ xs) = x ∷ take n xs

unfoldable pub orders_of : ℕ → Db → List Order
orders_of user_id db = newest_first (select (λ (o : Order). o.user_id == user_id) db.orders)

unfoldable pub list_by_user : ℕ → ℕ → Db → List LoadedOrder
list_by_user user_id limit db = map (with_items db) (take limit (orders_of user_id db))

-- COUNT(*) ... GROUP BY status ORDER BY status: a status without orders has no row.
unfoldable pub status_count :
    OrderStatus → List Order → List (OrderStatus × ℕ) → List (OrderStatus × ℕ)
status_count status orders rest =
    let n = count (λ (o : Order). same_status o.status status) orders in
    if n == 0 then rest else (status, n) ∷ rest

unfoldable pub count_by_status : Db → List (OrderStatus × ℕ)
count_by_status db =
    status_count pending db.orders
      (status_count paid db.orders (status_count cancelled db.orders []))

-- limit ? Number(limit) : 20; a valid request has digits of a positive number.
unfoldable pub limit_of : Option Text → ℕ
limit_of none = 20
limit_of (some []) = 20
limit_of (some (c ∷ cs)) = number (c ∷ cs)

unfoldable pub list_orders : ℕ → Option Text → Db → List OrderResponse
list_orders user_id limit db = map to_order_response (list_by_user user_id (limit_of limit) db)
