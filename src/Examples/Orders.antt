-- ===== src/Examples/Orders.antt =====
-- Checkouts on the shop.
use one_marketplace.Base.{ℕ, ◌≡◌, refl, some, List, [], ◌∷◌, ok, err, arith, All}
use one_marketplace.Base.Text.{codes, number, decimal, number_from, decimal_from, text_eq}
use one_marketplace.Base.Table.{count, first, exists, update}
use one_marketplace.Entities.{Db, PricedLine, to_order_placed_event, order_placed_event_id}
use one_marketplace.Checkout.Transaction.{transaction}
use one_marketplace.Checkout.Input.{CheckoutResult, Fault, Line, checkout_error, out_of_stock}
use one_marketplace.Checkout.Validate.{
  validate_lines, checked_lines, checked_line, positive_integer, sort_lines, insert_line,
}
use one_marketplace.Checkout.Body.{
  checkout, checkout_body, reserve_all, reserve, total_of, total_from, charge, conflict, save_order,
  insert_items, item_rows, count_lines, receipt_job, save_job, order_event, outbox_row,
  insert_outbox, new_order, record_order,
}
use one_marketplace.Checkout.Rows.{DistinctIds, DistinctUsers, demand, product_at}
use one_marketplace.Checkout.Enough.{IsSized, Enough, reserve_all-Enough}
use one_marketplace.Checkout.Placed.{Placed, checkout-Placed}
use one_marketplace.Checkout.Unique.{IsUnique, checkout-IsUnique}
use one_marketplace.Checkout.Failed.{Because, checkout_fails}
use one_marketplace.Examples.Shop.{pen, ink, shop, wants, noon}

pub shop-DistinctIds : DistinctIds shop.products
unfolding first
shop-DistinctIds = (refl, (refl, tt))

pub shop-DistinctUsers : DistinctUsers shop.users
unfolding first
shop-DistinctUsers = (refl, tt)

abbrev result : CheckoutResult
result = record { order_id = 1; total = 850 }

ordered-ok : checkout noon (wants 3) shop ≡ (ok result, (checkout noon (wants 3) shop).1)
unfolding checkout checkout_body transaction validate_lines checked_lines checked_line
    positive_integer sort_lines insert_line number number_from decimal decimal_from reserve_all
    reserve total_of total_from charge conflict save_order insert_items item_rows count_lines
    receipt_job save_job order_event outbox_row insert_outbox new_order record_order first exists
    update text_eq to_order_placed_event order_placed_event_id
ordered-ok = refl

checkout-Placed_example : Placed noon (wants 3) result shop (checkout noon (wants 3) shop).1
checkout-Placed_example =
    checkout-Placed noon (wants 3) result shop (checkout noon (wants 3) shop).1 shop-DistinctIds
      shop-DistinctUsers ordered-ok

abbrev pens_out : Fault
pens_out = checkout_error out_of_stock (some (codes "1"))

refused-pens : checkout noon (wants 9) shop ≡ (err pens_out, shop)
unfolding checkout checkout_body transaction validate_lines checked_lines checked_line
    positive_integer sort_lines insert_line number number_from decimal decimal_from reserve_all
    reserve total_of total_from charge conflict save_order insert_items item_rows count_lines
    receipt_job save_job order_event outbox_row insert_outbox new_order record_order first exists
    update text_eq to_order_placed_event order_placed_event_id
refused-pens = refl

checkout_fails_example : (shop ≡ shop) × Because noon (wants 9) shop pens_out
checkout_fails_example =
    checkout_fails noon (wants 9) pens_out shop shop shop-DistinctIds refused-pens

abbrev pens : ℕ → List Line
pens quantity =
    record { product_id = codes "1"; quantity = quantity }
    ∷ record { product_id = codes "2"; quantity = 1 }
    ∷ []

abbrev pens_sold : List PricedLine
pens_sold =
    record { product_id = codes "1"; quantity = 3; unit_price = 150 }
    ∷ record { product_id = codes "2"; quantity = 1; unit_price = 400 }
    ∷ []

abbrev stocked : Db
stocked = record shop { products = record pen { stock = 2 } ∷ record ink { stock = 0 } ∷ [] }

reserved-pens : reserve_all (pens 3) shop ≡ ok (pens_sold, stocked)
unfolding checkout checkout_body transaction validate_lines checked_lines checked_line
    positive_integer sort_lines insert_line number number_from decimal decimal_from reserve_all
    reserve total_of total_from charge conflict save_order insert_items item_rows count_lines
    receipt_job save_job order_event outbox_row insert_outbox new_order record_order first exists
    update text_eq to_order_placed_event order_placed_event_id
reserved-pens = refl

pens-IsSized : All IsSized (pens 3)
unfolding number number_from
pens-IsSized = (
  record { positive = omega arith; quantity_fits = omega arith; id_fits = omega arith },
  (record { positive = omega arith; quantity_fits = omega arith; id_fits = omega arith }, tt),
)

pens-Enough : (j : ℕ) → Enough (demand j (pens 3)) (product_at j shop.products)
unfolding number number_from first
pens-Enough j = ground arith

reserve_all-Enough_example :
    (priced : List PricedLine) × (db' : Db) × (reserve_all (pens 3) shop ≡ ok (priced, db'))
reserve_all-Enough_example =
    reserve_all-Enough (pens 3) shop shop-DistinctIds pens-IsSized pens-Enough

no-orders : IsUnique shop.orders
unfolding count
no-orders user_id key = omega arith

checkout-IsUnique_example : IsUnique (checkout noon (wants 3) shop).1.orders
checkout-IsUnique_example =
    checkout-IsUnique noon (wants 3) shop shop-DistinctIds shop-DistinctUsers no-orders
