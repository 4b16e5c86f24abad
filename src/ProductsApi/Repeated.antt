-- ===== src/ProductsApi/Repeated.antt =====
-- The creation of a product that is sent again (controllers/products.controller.ts).
use one_marketplace.Base.{ℕ, ◌≡◌, Bool, true, false, Option, Outcome, ok, [], ◌∷◌, ◌++◌}
use one_marketplace.Base.Text.{Text}
use one_marketplace.Idempotency.{IdempotencyRecord, save_idempotency_record, answer_by_record}
use one_marketplace.Idempotency.Json.{Json, Fields, object}
use one_marketplace.Entities.{Db, Product}
use one_marketplace.ProductCards.Products.{create_product}
use one_marketplace.ProductsApi.Controller.{
  ProductFailure, ProductResponse, to_product_response, product_input, Shelf, stocked,
  product_created, resource_of, post_product,
}
use one_marketplace.ProductsApi.Insertable.{IsInsertable, product_row}

module _ (sha256 : Text → Text) (id now : ℕ) (key : Text) (body : Fields) (shelf : Shelf) where
  -- The request, by what its creation comes to and the record that its key has.
  abbrev posted :
      Outcome (Unit {0}) Product × Db
      → Option (IdempotencyRecord ProductResponse)
      → Outcome ProductFailure (ProductResponse × Bool) × Shelf
  posted (created, after) found =
      let (result, records) =
        answer_by_record sha256 key (object body) (resource_of created) (λ r. r) shelf.records
          found in
      (product_created result, record { records = records; db = stocked found shelf.db after })

  abbrev attempt : Outcome (Unit {0}) Product × Db
  attempt = create_product id now (product_input body) shelf.db

  abbrev made : Product
  made = product_row id now (product_input body)

  -- The shelf after a creation.
  abbrev filled : Shelf
  filled = record {
    records =
        save_idempotency_record sha256 key (object body) (to_product_response made) 201
          shelf.records;
    db = record shelf.db { products = shelf.db.products ++ made ∷ [] };
  }

-- What a first request with a key comes to, and the request that is sent again.
pub record IsCreated (sha256 : Text → Text) (id now id' now' : ℕ) (key : Text) (body again : Fields)
    (shelf : Shelf) : Type 0 where
  pub insertable : IsInsertable (product_input body) shelf.db
  pub answer :
      (post_product sha256 id now key body shelf).0
      ≡ ok (to_product_response (product_row id now (product_input body)), false)
  pub stored : (post_product sha256 id now key body shelf).1.db ≡ record shelf.db {
    products = shelf.db.products ++ product_row id now (product_input body) ∷ [];
  }
  pub replayed :
      post_product sha256 id' now' key again (post_product sha256 id now key body shelf).1 ≡ (
        ok (to_product_response (product_row id now (product_input body)), true),
        (post_product sha256 id now key body shelf).1,
      )
