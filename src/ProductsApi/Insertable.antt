-- ===== src/ProductsApi/Insertable.antt =====
-- Which products can be created (repositories/products.repository.ts, entities/product.entity.ts).
use one_marketplace.Base.{
  ℕ, ◌≡◌, refl, ◌<◌, ◌≤◌, inl, inr, Bool-cases, true, false, ok, err, List, [], ◌∷◌, ◌++◌, All,
  arith,
}
use one_marketplace.Base.Text.{Text, text_eq, text_eq_iff}
use one_marketplace.Base.Table.{exists}
use one_marketplace.Entities.{Db, Product}
use one_marketplace.Checkout.Input.{int4_max}
use one_marketplace.ProductCards.Products.{CreateProductInput, is_insertable, create_product}

-- What the table of products takes.
pub record IsInsertable (input : CreateProductInput) (db : Db) : Type 0 where
  pub priced : 0 < input.price
  pub price_fits : input.price ≤ int4_max
  pub stock_fits : input.stock ≤ int4_max
  pub new_name : All (λ (p : Product). ¬ (p.name ≡ input.name)) db.products

exists-new_name :
    (name : Text) (products : List Product)
    → exists (λ (p : Product). text_eq p.name name) products ≡ false
    → All (λ (p : Product). ¬ (p.name ≡ name)) products
unfolding exists
exists-new_name name [] h = tt
exists-new_name name (p ∷ products) h = (
  λ same. ground (arith, h, (text_eq_iff p.name name).1 same),
  exists-new_name name products (ground (arith, h)),
)

new_name-exists :
    (name : Text) (products : List Product)
    → All (λ (p : Product). ¬ (p.name ≡ name)) products
    → exists (λ (p : Product). text_eq p.name name) products ≡ false
unfolding exists
new_name-exists name [] h = refl
new_name-exists name (p ∷ products) h = elim (Bool-cases (text_eq p.name name)) [
  | inl same ↦ absurd (h.0 ((text_eq_iff p.name name).0 same))
  | inr other ↦ ground (arith, other, new_name-exists name products h.1)
]

pub is_insertable-IsInsertable :
    (input : CreateProductInput) (db : Db) → is_insertable input db ≡ true → IsInsertable input db
unfolding is_insertable
is_insertable-IsInsertable input db h = record {
  priced = ground (arith, h);
  price_fits = ground (arith, h);
  stock_fits = ground (arith, h);
  new_name = exists-new_name input.name db.products (ground (arith, h));
}

pub refused-IsInsertable :
    (input : CreateProductInput) (db : Db)
    → is_insertable input db ≡ false
    → ¬ IsInsertable input db
unfolding is_insertable
refused-IsInsertable input db h i = ground (
  arith,
  h,
  i.priced,
  i.price_fits,
  i.stock_fits,
  new_name-exists input.name db.products i.new_name,
)

-- The row of a product.
abbrev pub product_row : ℕ → ℕ → CreateProductInput → Product
product_row id now input = record {
  id = id;
  name = input.name;
  description = input.description;
  price = input.price;
  stock = input.stock;
  created_at = now;
}

pub create_product-ok :
    (id now : ℕ) (input : CreateProductInput) (db : Db)
    → is_insertable input db ≡ true
    → create_product id now input db ≡ (
      ok (product_row id now input),
      record db { products = db.products ++ product_row id now input ∷ [] },
    )
unfolding create_product
create_product-ok id now input db h = rw h refl

pub create_product-err :
    (id now : ℕ) (input : CreateProductInput) (db : Db)
    → is_insertable input db ≡ false
    → create_product id now input db ≡ (err tt, db)
unfolding create_product
create_product-err id now input db h = rw h refl
