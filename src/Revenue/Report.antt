-- ===== src/Revenue/Report.antt =====
-- revenueByProduct of repositories/products.repository.ts, and what report.ts prints of it.
use one_marketplace.Base.{
  ℕ, ◌*◌, ◌/◌, ◌%◌, Bool, ◌&&◌, List, [], ◌∷◌, ◌++◌, Outcome, ok, err, ltb, leb, ◌==◌, sum_by,
  if◌then◌else◌,
}
use one_marketplace.Base.Text.{Text, codes, decimal}
use one_marketplace.Base.Table.{select, exists}
use one_marketplace.Entities.{Db, Product, OrderItem, paid}
use one_marketplace.OrderStatus.{same_status}
use one_marketplace.ProductCards.Products.{is_sold}
use one_marketplace.Checkout.Input.{int4_max}

pub record ProductRevenue : Type 0 where
  pub product_id : ℕ
  pub product_name : Text
  pub units_sold : ℕ
  pub revenue : ℕ

-- item.quantity * item.unitPrice
abbrev pub amount : OrderItem → ℕ
amount item = item.quantity * item.unit_price

abbrev pub revenue_of : Db → Product → ProductRevenue
revenue_of db product = record {
  product_id = product.id;
  product_name = product.name;
  units_sold =
      sum_by (λ (i : OrderItem). i.quantity) (select (is_sold db product.id) db.order_items);
  revenue = sum_by amount (select (is_sold db product.id) db.order_items);
}

-- The groups: the products that the joins find.
unfoldable pub grouped : Db → List Product → List ProductRevenue
grouped db [] = []
grouped db (product ∷ products) =
    let rest = grouped db products in
    if exists (is_sold db product.id) db.order_items then revenue_of db product ∷ rest else rest

unfoldable pub insert_revenue : ProductRevenue → List ProductRevenue → List ProductRevenue
insert_revenue r [] = r ∷ []
insert_revenue r (s ∷ rows) =
    let rest = insert_revenue r rows in if leb s.revenue r.revenue then r ∷ s ∷ rows else s ∷ rest

-- ORDER BY revenue DESC
unfoldable pub sort_revenues : List ProductRevenue → List ProductRevenue
unfolding insert_revenue
sort_revenues [] = []
sort_revenues (r ∷ rows) = insert_revenue r (sort_revenues rows)

-- Whether the item's order is paid.
unfoldable pub is_paid_item : Db → OrderItem → Bool
is_paid_item db item = exists (λ o. o.id == item.order_id && same_status o.status paid) db.orders

-- A product of two integers beyond the integers fails the query.
unfoldable pub revenue_by_product : Db → Outcome (Unit {0}) (List ProductRevenue)
unfolding sort_revenues grouped is_paid_item
revenue_by_product db =
    if exists (λ item. is_paid_item db item && ltb int4_max (amount item)) db.order_items
    then err tt
    else ok (sort_revenues (grouped db db.products))

-- .padStart(2, '0')
unfoldable pub pad_start : Text → Text
pad_start [] = codes "00"
pad_start (c ∷ []) = codes "0" ++ c ∷ []
pad_start (c ∷ d ∷ cs) = c ∷ d ∷ cs

unfoldable pub format_uah : ℕ → Text
unfolding pad_start
format_uah value = decimal (value / 100) ++ (codes "." ++ pad_start (decimal (value % 100)))
