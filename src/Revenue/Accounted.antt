-- ===== src/Revenue/Accounted.antt =====
-- What the rows of the revenue add up to (repositories/products.repository.ts).
use one_marketplace.Base.{
  ℕ, ◌≤◌, ◌≡◌, refl, false, ◌&&◌, inl, inr, List, [], ◌∷◌, ok, arith, ltb, leb, sum_by, All,
  All-imp, Bool-cases,
}
use one_marketplace.Base.Table.{select, exists}
use one_marketplace.Base.Keyed.{DistinctKeys}
use one_marketplace.Entities.{Db, Product, OrderItem}
use one_marketplace.Checkout.Input.{int4_max}
use one_marketplace.Revenue.Sums.{HasProduct, sold, column-total}
use one_marketplace.Revenue.Report.{
  ProductRevenue, amount, grouped, insert_revenue, sort_revenues, is_paid_item, revenue_by_product,
}

-- No row before one of more revenue.
abbrev pub IsDescending : List ProductRevenue → Type 0
IsDescending [] = Unit
IsDescending (r ∷ rows) =
    All (λ (s : ProductRevenue). s.revenue ≤ r.revenue) rows × IsDescending rows

insert_revenue-below :
    (n : ℕ) (r : ProductRevenue) (rows : List ProductRevenue)
    → r.revenue ≤ n
    → All (λ (s : ProductRevenue). s.revenue ≤ n) rows
    → All (λ (s : ProductRevenue). s.revenue ≤ n) (insert_revenue r rows)
unfolding insert_revenue
insert_revenue-below n r [] h below = (h, tt)
insert_revenue-below n r (s ∷ rows) h below = elim (Bool-cases (leb s.revenue r.revenue)) [
  | inl first_of ↦ rw first_of (h, below)
  | inr later ↦ rw later (below.0, insert_revenue-below n r rows h below.1)
]

insert_revenue-IsDescending :
    (r : ProductRevenue) (rows : List ProductRevenue)
    → IsDescending rows
    → IsDescending (insert_revenue r rows)
unfolding insert_revenue
insert_revenue-IsDescending r [] d = (tt, tt)
insert_revenue-IsDescending r (s ∷ rows) d = elim (Bool-cases (leb s.revenue r.revenue)) [
  | inl first_of ↦
      let fits : s.revenue ≤ r.revenue = ground (arith, first_of) in
      rw first_of ((fits, All-imp (λ t below. omega (arith, below, fits)) rows d.0), d)
  | inr later ↦ rw later (
    insert_revenue-below s.revenue r rows (ground (arith, later)) d.0,
    insert_revenue-IsDescending r rows d.1,
  )
]

sort_revenues-IsDescending : (rows : List ProductRevenue) → IsDescending (sort_revenues rows)
unfolding sort_revenues
sort_revenues-IsDescending [] = tt
sort_revenues-IsDescending (r ∷ rows) =
    insert_revenue-IsDescending r (sort_revenues rows) (sort_revenues-IsDescending rows)

abbrev pub quantity : OrderItem → ℕ
quantity item = item.quantity

-- The rows, against the items of paid orders.
pub record Accounted (db : Db) (rows : List ProductRevenue) : Type 0 where
  pub revenue :
      sum_by (λ r. r.revenue) rows ≡ sum_by amount (select (is_paid_item db) db.order_items)
  pub units :
      sum_by (λ r. r.units_sold) rows ≡ sum_by quantity (select (is_paid_item db) db.order_items)
  pub order : IsDescending rows

-- When products have distinct ids, every item has its product, and no item of a paid order has an
-- amount beyond integer, the report's query succeeds: the revenue of its rows adds up to the amounts
-- of the items of paid orders, and their units to the quantities; the rows stand with the greatest
-- revenue first.
pub revenue_by_product-Accounted :
    (db : Db)
    → DistinctKeys (λ (q : Product). q.id) db.products
    → All (HasProduct db.products) db.order_items
    → exists (λ i. is_paid_item db i && ltb int4_max (amount i)) db.order_items ≡ false
    → (rows : List ProductRevenue) × (revenue_by_product db ≡ ok rows) × Accounted db rows
unfolding revenue_by_product
revenue_by_product-Accounted db d has fits = (
  sort_revenues (grouped db db.products),
  rw fits refl,
  record {
    revenue = column-total db amount (λ r. r.revenue) (λ p. unfold sold in refl) d has;
    units = column-total db quantity (λ r. r.units_sold) (λ p. unfold sold in refl) d has;
    order = sort_revenues-IsDescending (grouped db db.products);
  },
)
