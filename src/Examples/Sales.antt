-- ===== src/Examples/Sales.antt =====
-- The revenue of the shop after two orders, of which one is paid.
use one_marketplace.Base.{◌≡◌, refl, false, ◌&&◌, List, [], ◌∷◌, ok, ltb, All}
use one_marketplace.Base.Table.{exists, first}
use one_marketplace.Base.Keyed.{DistinctKeys}
use one_marketplace.Entities.{Db, Product, Order, OrderStatus}
use one_marketplace.Checkout.Input.{int4_max}
use one_marketplace.OrderStatus.{same_status}
use one_marketplace.Revenue.{ProductRevenue, amount, is_paid_item, revenue_by_product}
use one_marketplace.Revenue.Sums.{HasProduct}
use one_marketplace.Revenue.Accounted.{Accounted, revenue_by_product-Accounted}
use one_marketplace.Examples.Shop.{ordered, placed_order, pen, ink}

abbrev waiting_order : Order
waiting_order = record placed_order { id = 4; status = OrderStatus.pending }

abbrev sales : Db
sales = record ordered {
  orders = placed_order ∷ waiting_order ∷ [];
  order_items =
      record { id = 1; order_id = 3; product_id = 1; quantity = 2; unit_price = 100 }
      ∷ record { id = 2; order_id = 3; product_id = 2; quantity = 1; unit_price = 500 }
      ∷ record { id = 3; order_id = 4; product_id = 1; quantity = 5; unit_price = 100 }
      ∷ [];
}

sales-Distinct : DistinctKeys (λ (p : Product). p.id) sales.products
unfolding first
sales-Distinct = (refl, (refl, tt))

sales-HasProduct : All (HasProduct sales.products) sales.order_items
unfolding first
sales-HasProduct = ((pen, refl), ((ink, refl), ((pen, refl), tt)))

sales-fit : exists (λ i. is_paid_item sales i && ltb int4_max (amount i)) sales.order_items ≡ false
unfolding exists is_paid_item same_status
sales-fit = refl

revenue_by_product-Accounted_example :
    (rows : List ProductRevenue) × (revenue_by_product sales ≡ ok rows) × Accounted sales rows
revenue_by_product-Accounted_example =
    revenue_by_product-Accounted sales sales-Distinct sales-HasProduct sales-fit
