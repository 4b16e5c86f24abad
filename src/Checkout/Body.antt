-- ===== src/Checkout/Body.antt =====
-- services/checkout.service.ts, `checkout`: the transaction's statements in their order.
use one_marketplace.Base.{
  ℕ, suc, ◌+◌, ◌-◌, ◌*◌, Bool, false, ◌&&◌, Option, none, some, List, [], ◌∷◌, ◌++◌, Outcome, ok,
  err, leb, ◌==◌, if◌then◌else◌,
}
use one_marketplace.Base.Text.{Text, codes, text_eq, number, decimal}
use one_marketplace.Base.Table.{first, exists, update}
use one_marketplace.Entities.{
  Db, User, Product, Order, OrderItem, Job, Outbox, PricedLine, OrderPlacedEvent,
  order_aggregate_type, to_order_placed_event, paid, waiting,
}
use one_marketplace.Checkout.Transaction.{Tx, transaction, ◌>>=◌, ◌>>◌, raise, pure}
use one_marketplace.Checkout.Input.{
  CheckoutInput, CheckoutResult, Context, Line, Fault, CheckoutFailure, Constraint, checkout_error,
  query_failed, hook_failed, product_not_found, out_of_stock, user_not_found, insufficient_funds,
  unique_violation, numeric_value_out_of_range, orders_user_id_created_at_idx,
  orders_user_id_idempotency_key_key, int4_max, int8_max,
}
use one_marketplace.Checkout.Validate.{validate_lines}

-- A query parameter that its column's type cannot hold fails the query.
abbrev pub bind : ℕ → ℕ → Tx Fault Unit
bind limit n = if leb n limit then pure tt else raise (query_failed numeric_value_out_of_range none)

-- WHERE id = $2 AND stock >= $1
abbrev pub takes : ℕ → ℕ → Product → Bool
takes id quantity p = p.id == id && leb quantity p.stock

abbrev pub lower_stock : ℕ → Product → Product
lower_stock quantity p = record p { stock = p.stock - quantity }

abbrev pub missing : Bool → CheckoutFailure → CheckoutFailure → Option Text → Fault
missing found short absent product = checkout_error (if found then short else absent) product

-- The UPDATE of the stock, and what follows when it returned no row.
abbrev pub take_stock : Line → ℕ → Tx Fault ℕ
take_stock line id db = elim (first (takes id line.quantity) db.products) [
  | some p ↦ ok (
    p.price,
    record db {
      products = update (takes id line.quantity) (lower_stock line.quantity) db.products;
    },
  )
  | none ↦ err (
      missing (exists (λ p. p.id == id) db.products) out_of_stock product_not_found
        (some line.product_id))
]

-- The body of the loop over the lines.
unfoldable pub reserve : Line → Tx Fault PricedLine
reserve line = do
  bind int4_max line.quantity
  bind int8_max (number line.product_id)
  price ← take_stock line (number line.product_id)
  pure (record { product_id = line.product_id; quantity = line.quantity; unit_price = price })

unfoldable pub reserve_all : List Line → Tx Fault (List PricedLine)
reserve_all [] = pure []
reserve_all (line ∷ lines) = do
  priced ← reserve line
  rest ← reserve_all lines
  pure (priced ∷ rest)

unfoldable pub total_from : ℕ → List PricedLine → ℕ
total_from sum [] = sum
total_from sum (line ∷ lines) = total_from (sum + line.quantity * line.unit_price) lines

-- priced.reduce((sum, line) => sum + line.quantity * line.unitPrice, 0)
unfoldable pub total_of : List PricedLine → ℕ
unfolding total_from
total_of = total_from 0

-- WHERE id = $2 AND balance >= $1
abbrev pub pays : ℕ → ℕ → User → Bool
pays id total u = u.id == id && leb total u.balance

abbrev pub lower_balance : ℕ → User → User
lower_balance total u = record u { balance = u.balance - total }

unfoldable pub charge : ℕ → ℕ → Tx Fault Unit
charge user_id total = do
  bind int4_max total
  λ db.
      if exists (pays user_id total) db.users
      then ok (tt, record db { users = update (pays user_id total) (lower_balance total) db.users })
      else err
          (missing (exists (λ u. u.id == user_id) db.users) insufficient_funds user_not_found none)

abbrev pub same_key : Option Text → Option Text → Bool
same_key (some a) (some b) = text_eq a b
same_key _ _ = false

-- The unique indexes of the orders, in the order in which the database checks them.
unfoldable pub conflict : Order → List Order → Option Constraint
conflict order orders =
    if exists (λ o. o.user_id == order.user_id && o.created_at == order.created_at) orders
    then some orders_user_id_created_at_idx
    else if exists
        (λ o. o.user_id == order.user_id && same_key o.idempotency_key order.idempotency_key) orders
    then some orders_user_id_idempotency_key_key
    else none

unfoldable pub save_order : Order → Tx Fault Unit
save_order order db = elim (conflict order db.orders) [
  | some constraint ↦ err (query_failed unique_violation (some constraint))
  | none ↦ ok (tt, record db { orders = db.orders ++ order ∷ []; next_order = suc db.next_order })
]

unfoldable pub item_rows : ℕ → ℕ → List PricedLine → List OrderItem
item_rows order_id next [] = []
item_rows order_id next (line ∷ lines) =
    record {
      id = next;
      order_id = order_id;
      product_id = number line.product_id;
      quantity = line.quantity;
      unit_price = line.unit_price;
    }
    ∷ item_rows order_id (suc next) lines

unfoldable pub count_lines : ℕ → List PricedLine → ℕ
count_lines next [] = next
count_lines next (line ∷ lines) = count_lines (suc next) lines

unfoldable pub insert_items : ℕ → List PricedLine → Tx Fault Unit
insert_items order_id priced db = ok (
  tt,
  record db {
    order_items = db.order_items ++ item_rows order_id db.next_item priced;
    next_item = count_lines db.next_item priced;
  },
)

unfoldable pub receipt_job : ℕ → ℕ → ℕ → Job
receipt_job id order_id now = record {
  id = id;
  queue = codes "default";
  type = codes "send_receipt";
  payload = decimal order_id;
  status = waiting;
  processed = 0;
  attempts = 0;
  last_error = none;
  worker = none;
  created_at = now;
  processed_at = none;
}

unfoldable pub save_job : ℕ → ℕ → Tx Fault Unit
save_job order_id now db = ok (
  tt,
  record db {
    jobs = db.jobs ++ receipt_job db.next_job order_id now ∷ [];
    next_job = suc db.next_job;
  },
)

unfoldable pub order_event : ℕ → ℕ → ℕ → ℕ → List PricedLine → OrderPlacedEvent
order_event order_id user_id total now priced = to_order_placed_event (record {
  id = decimal order_id;
  user_id = user_id;
  total = total;
  created_at = now;
  items = priced;
})

unfoldable pub outbox_row : Context → ℕ → OrderPlacedEvent → Outbox
outbox_row context order_id event = record {
  id = context.outbox_id;
  aggregate_type = order_aggregate_type;
  aggregate_id = decimal order_id;
  type = event.type;
  payload = event;
  created_at = context.now;
  published_at = none;
  attempts = 0;
}

unfoldable pub insert_outbox : Outbox → Tx Fault Unit
insert_outbox row db = ok (tt, record db { outbox = db.outbox ++ row ∷ [] })

unfoldable pub new_order : ℕ → CheckoutInput → ℕ → ℕ → Order
new_order id input total now = record {
  id = id;
  user_id = input.user_id;
  status = paid;
  total = total;
  idempotency_key = input.idempotency_key;
  created_at = now;
}

-- What is written once the stock and the money are taken.
unfoldable pub record_order :
    Context → CheckoutInput → ℕ → List PricedLine → ℕ → Tx Fault CheckoutResult
unfolding save_order insert_items save_job insert_outbox
record_order context input total priced id = do
  save_order (new_order id input total context.now)
  insert_items id priced
  save_job id context.now
  insert_outbox (outbox_row context id (order_event id input.user_id total context.now priced))
  if context.hook_throws then raise hook_failed else pure tt
  pure (record { order_id = id; total = total })

unfoldable pub checkout_body : Context → CheckoutInput → List Line → Tx Fault CheckoutResult
checkout_body context input lines = do
  priced ← reserve_all lines
  let total = total_of priced
  charge input.user_id total
  λ db. record_order context input total priced db.next_order db

unfoldable pub checkout : Context → CheckoutInput → Db → Outcome Fault CheckoutResult × Db
unfolding transaction checkout_body
checkout context input db = elim (validate_lines input.items) [
  | ok lines ↦ transaction (checkout_body context input lines) db
  | err e ↦ (err e, db)
]
