-- ===== src/ProductCards/Products.antt =====
-- repositories/products.repository.ts: the reads of products, and the card of one.
use one_marketplace.Base.{
  ℕ, Bool, not, ◌&&◌, Option, none, some, List, [], ◌∷◌, ◌++◌, Outcome, ok, err, ltb, leb, ◌==◌,
  sum_by, if◌then◌else◌,
}
use one_marketplace.Base.Text.{Text, text_eq, number}
use one_marketplace.Base.Table.{select, first, exists}
use one_marketplace.Entities.{Db, Product, OrderItem, paid}
use one_marketplace.OrderStatus.{same_status}
use one_marketplace.Checkout.Input.{int4_max, int8_max}

pub record CreateProductInput : Type 0 where
  pub name : Text
  pub description : Text
  pub price : ℕ
  pub stock : ℕ

-- Which rows the table takes: a price and a stock within integer, the check on the price, and the
-- unique name.
unfoldable pub is_insertable : CreateProductInput → Db → Bool
is_insertable input db =
    (ltb 0 input.price && leb input.price int4_max)
    && (leb input.stock int4_max
        && not (exists (λ (p : Product). text_eq p.name input.name) db.products))

-- The id and the time are the database's. An insert that the table does not take throws.
unfoldable pub create_product : ℕ → ℕ → CreateProductInput → Db → Outcome (Unit {0}) Product × Db
unfolding is_insertable
create_product id now input db =
    let product : Product = record {
      id = id;
      name = input.name;
      description = input.description;
      price = input.price;
      stock = input.stock;
      created_at = now;
    } in
    if is_insertable input db
    then (ok product, record db { products = db.products ++ product ∷ [] })
    else (err tt, db)

unfoldable pub find_product : ℕ → Db → Option Product
find_product id db = first (λ p. p.id == id) db.products

unfoldable pub insert_product : Product → List Product → List Product
insert_product p [] = p ∷ []
insert_product p (q ∷ qs) =
    let rest = insert_product p qs in if leb p.id q.id then p ∷ q ∷ qs else q ∷ rest

-- ORDER BY id
unfoldable pub sort_products : List Product → List Product
sort_products [] = []
sort_products (p ∷ ps) = insert_product p (sort_products ps)

unfoldable pub find_all : Db → List Product
find_all db = sort_products db.products

pub record ProductCard : Type 0 where
  pub id : ℕ
  pub name : Text
  pub price_cents : ℕ
  pub stock : ℕ
  pub units_sold : ℕ

-- The left join finds an order only if it is paid.
unfoldable pub is_sold : Db → ℕ → OrderItem → Bool
is_sold db product_id item =
    item.product_id == product_id
    && exists (λ o. o.id == item.order_id && same_status o.status paid) db.orders

unfoldable pub units_sold : Db → ℕ → ℕ
units_sold db product_id =
    sum_by (λ (item : OrderItem). item.quantity) (select (is_sold db product_id) db.order_items)

unfoldable pub card_of : Db → Product → ProductCard
card_of db product = record {
  id = product.id;
  name = product.name;
  price_cents = product.price;
  stock = product.stock;
  units_sold = units_sold db product.id;
}

-- findCard with the mapping of its row: a parameter beyond bigint, or a sum beyond integer, fails
-- the query.
unfoldable pub card_row : Db → Option Product → Outcome (Unit {0}) (Option ProductCard)
card_row db none = ok none
card_row db (some product) =
    if ltb int4_max (units_sold db product.id) then err tt else ok (some (card_of db product))

unfoldable pub find_card : Text → Db → Outcome (Unit {0}) (Option ProductCard)
find_card id db =
    if ltb int8_max (number id) then err tt else card_row db (find_product (number id) db)
