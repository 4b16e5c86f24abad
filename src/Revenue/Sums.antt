-- ===== src/Revenue/Sums.antt =====
-- Sums over products of what was sold of them (repositories/products.repository.ts).
use one_marketplace.Base.{
  ℕ, ◌+◌, ◌≡◌, refl, ◌∙◌, Bool, false, ◌&&◌, none, some, inl, inr, subst, ==_iff, List, [], ◌∷◌,
  arith, ◌==◌, sum_by, All, if◌then◌else◌, Bool-cases,
}
use one_marketplace.Base.Table.{select, exists, first}
use one_marketplace.Base.Keyed.{row_at, DistinctKeys}
use one_marketplace.Entities.{Db, Product, OrderItem}
use one_marketplace.ProductCards.Products.{is_sold}
use one_marketplace.Revenue.Report.{
  ProductRevenue, revenue_of, grouped, insert_revenue, sort_revenues, is_paid_item,
}

-- A sum over the products, of what is the item's product's.
module _ (id : ℕ) (b : Bool) (n : ℕ) where
  share : Product → ℕ
  share p = if id == p.id && b then n else 0

  share-absent :
      (products : List Product) → row_at (λ p. p.id) id products ≡ none → sum_by share products ≡ 0
  unfolding share first
  share-absent [] h = refl
  share-absent (p ∷ products) h = ground (arith, share-absent products)

  share-once :
      (products : List Product) (p : Product)
      → DistinctKeys (λ (q : Product). q.id) products
      → row_at (λ q. q.id) id products ≡ some p
      → sum_by share products ≡ (if b then n else 0)
  unfolding share first
  share-once [] p d h = absurd (ground arith)
  share-once (q ∷ products) p d h = elim (Bool-cases (q.id == id)) [
    | inl here ↦
        let same = (==_iff q.id id).0 here in
        let absent =
          share-absent products
            (subst (λ k. row_at (λ (r : Product). r.id) k products ≡ none) same d.0) in
        ground (arith, here, absent)
    | inr there ↦
        let rest = share-once products p d.1 (ground (arith, there, h)) in
        ground (arith, there, rest)
  ]

-- The product of an item exists.
abbrev pub HasProduct : List Product → OrderItem → Type 0
HasProduct products item =
    (p : Product) × (row_at (λ (q : Product). q.id) item.product_id products ≡ some p)

module _ (db : Db) (f : OrderItem → ℕ) where
  -- What a product's rows add up to, among some items.
  unfoldable pub sold : List OrderItem → Product → ℕ
  sold items p = sum_by f (select (is_sold db p.id) items)

  sum_by-add :
      (g h k : Product → ℕ)
      → ((p : Product) → k p ≡ g p + h p)
      → (products : List Product) → sum_by k products ≡ sum_by g products + sum_by h products
  sum_by-add g h k same [] = refl
  sum_by-add g h k same (p ∷ products) = omega (arith, same p, sum_by-add g h k same products)

  sold-step :
      (item : OrderItem) (items : List OrderItem) (p : Product)
      → sold (item ∷ items) p
        ≡ share item.product_id (is_paid_item db item) (f item) p + sold items p
  unfolding sold select is_sold is_paid_item share
  sold-step item items p = ground arith

  sold-none : (products : List Product) → sum_by (sold []) products ≡ 0
  unfolding sold select
  sold-none [] = refl
  sold-none (p ∷ products) = omega (arith, sold-none products)

  sum_by-sold :
      (products : List Product) (items : List OrderItem)
      → DistinctKeys (λ (q : Product). q.id) products
      → All (HasProduct products) items
      → sum_by (sold items) products ≡ sum_by f (select (is_paid_item db) items)
  unfolding select
  sum_by-sold products [] d has = sold-none products
  sum_by-sold products (item ∷ items) d has =
      let paid_share = share item.product_id (is_paid_item db item) (f item) in
      let added =
        sum_by-add paid_share (sold items) (sold (item ∷ items)) (sold-step item items) products in
      let once =
        share-once item.product_id (is_paid_item db item) (f item) products has.0.0 d has.0.1 in
      let rest = sum_by-sold products items d has.1 in ground (arith, added, once, rest)

  unsold :
      (q : OrderItem → Bool) (items : List OrderItem)
      → exists q items ≡ false
      → sum_by f (select q items) ≡ 0
  unfolding select exists
  unsold q [] h = refl
  unsold q (item ∷ items) h = ground (arith, unsold q items)

  -- A column of the rows that adds up such a measure of items.
  module _ (column : ProductRevenue → ℕ)
      (is : (p : Product) → column (revenue_of db p) ≡ sold db.order_items p) where
    sum_by-grouped :
        (products : List Product)
        → sum_by column (grouped db products) ≡ sum_by (sold db.order_items) products
    unfolding grouped
    sum_by-grouped [] = refl
    sum_by-grouped (p ∷ products) = elim (Bool-cases (exists (is_sold db p.id) db.order_items)) [
      | inl some_sold ↦ rw some_sold (omega (arith, is p, sum_by-grouped products))
      | inr none_sold ↦
          let nothing : sold db.order_items p ≡ 0 =
            unfold sold in unsold (is_sold db p.id) db.order_items none_sold in
          rw none_sold (omega (arith, nothing, sum_by-grouped products))
    ]

    sum_by-insert_revenue :
        (r : ProductRevenue) (rows : List ProductRevenue)
        → sum_by column (insert_revenue r rows) ≡ column r + sum_by column rows
    unfolding insert_revenue
    sum_by-insert_revenue r [] = refl
    sum_by-insert_revenue r (s ∷ rows) = ground (arith, sum_by-insert_revenue r rows)

    sum_by-sort_revenues :
        (rows : List ProductRevenue) → sum_by column (sort_revenues rows) ≡ sum_by column rows
    unfolding sort_revenues
    sum_by-sort_revenues [] = refl
    sum_by-sort_revenues (r ∷ rows) =
        omega (arith, sum_by-insert_revenue r (sort_revenues rows), sum_by-sort_revenues rows)

    pub column-total :
        DistinctKeys (λ (q : Product). q.id) db.products
        → All (HasProduct db.products) db.order_items
        → sum_by column (sort_revenues (grouped db db.products))
          ≡ sum_by f (select (is_paid_item db) db.order_items)
    column-total d has =
        sum_by-sort_revenues (grouped db db.products)
        ∙ sum_by-grouped db.products
        ∙ sum_by-sold db.products db.order_items d has
