-- ===== src/ProductsApi/Controller.antt =====
-- controllers/products.controller.ts with http/rate-limit.guard.ts. A request's body is the object that
-- it parses to.
use one_marketplace.Base.{
  ℕ, Bool, Option, none, some, List, [], map, Outcome, ok, err, if◌then◌else◌,
}
use one_marketplace.Base.Text.{Text, codes, text_eq, is_id, number}
use one_marketplace.Entities.{Db, Product}
use one_marketplace.RateLimiter.{RateLimitResult}
use one_marketplace.Idempotency.{
  IdempotencyRecord, IdempotencyResult, Records, Refusal, key_reused, not_created,
  get_idempotency_record, handle_idempotency,
}
use one_marketplace.Idempotency.Json.{Json, Fields, numeral, string, object, no_fields, field}
use one_marketplace.ProductCards.{Answer, busy, query_failed}
use one_marketplace.ProductCards.Products.{
  ProductCard, CreateProductInput, create_product, find_all,
}

pub record ProductResponse : Type 0 where
  pub id : ℕ
  pub name : Text
  pub price_cents : ℕ
  pub stock : ℕ

unfoldable pub to_product_response : Product → ProductResponse
to_product_response product = record {
  id = product.id;
  name = product.name;
  price_cents = product.price;
  stock = product.stock;
}

-- `next_cursor` is always null.
unfoldable pub list_products : Db → List ProductResponse
list_products db = map to_product_response (find_all db)

pub data ProductFailure : Type 0 where
  product_not_found unprocessable internal : ProductFailure
  too_many_requests service_unavailable : ℕ → ProductFailure

-- RateLimitGuard.canActivate: what the guard answers, with Retry-After.
unfoldable pub rate_limit_guard : RateLimitResult → Outcome ProductFailure (Unit {0})
rate_limit_guard result =
    if result.allowed then ok tt else err (too_many_requests result.retry_after_seconds)

-- getById, after the guard; `card` is the answer of the product cards.
unfoldable pub card_response : Answer → Outcome ProductFailure ProductCard
card_response (err busy) = err (service_unavailable 1)
card_response (err query_failed) = err internal
card_response (ok none) = err product_not_found
card_response (ok (some card)) = ok card

unfoldable pub get_product : RateLimitResult → Text → Answer → Outcome ProductFailure ProductCard
get_product limited id card = elim (rate_limit_guard limited) [
  | err e ↦ err e
  | ok u ↦ if is_id id then card_response card else err product_not_found
]

-- body[key]
unfoldable pub body_field : Text → Fields → Option Json
body_field key no_fields = none
body_field key (field name value fields) =
    let rest = body_field key fields in if text_eq name key then some value else rest

unfoldable pub text_or : Text → Option Json → Text
text_or default (some (string text)) = text
text_or default _ = default

unfoldable pub number_or : ℕ → Option Json → ℕ
number_or default (some (numeral text)) = number text
number_or default _ = default

-- The body's fields, which the validation of requests has checked: `name` is a string, `price_cents`
-- and `stock` are natural numbers, and the first two are there.
unfoldable pub product_input : Fields → CreateProductInput
product_input body = record {
  name = text_or [] (body_field (codes "name") body);
  description = text_or [] (body_field (codes "description") body);
  price = number_or 0 (body_field (codes "price_cents") body);
  stock = number_or 0 (body_field (codes "stock") body);
}

-- The records of the idempotency service, and the database.
pub record Shelf : Type 0 where
  pub records : Records ProductResponse
  pub db : Db

-- The database after a creation, which takes place only if the key has no record.
unfoldable pub stocked : Option (IdempotencyRecord ProductResponse) → Db → Db → Db
stocked (some existing) before after = before
stocked none before after = after

unfoldable pub to_product_failure : Refusal (Unit {0}) → ProductFailure
to_product_failure key_reused = unprocessable
to_product_failure (not_created e) = internal

-- The answer, with whether it carries `Idempotency-Replay`.
unfoldable pub product_created :
    Outcome (Refusal (Unit {0})) (IdempotencyResult ProductResponse)
    → Outcome ProductFailure (ProductResponse × Bool)
product_created (err e) = err (to_product_failure e)
product_created (ok result) = ok (result.response, result.replay)

-- createResource: the product that was created, or the error that its insert throws.
unfoldable pub resource_of : Outcome (Unit {0}) Product → Outcome (Unit {0}) ProductResponse
resource_of (ok product) = ok (to_product_response product)
resource_of (err e) = err e

-- create, after the guards: `id` and `now` are the database's for a new row.
unfoldable pub post_product :
    (Text → Text)
    → ℕ
    → ℕ
    → Text
    → Fields
    → Shelf
    → Outcome ProductFailure (ProductResponse × Bool) × Shelf
post_product sha256 id now key body shelf =
    let (created, after) = create_product id now (product_input body) shelf.db in
    let (result, records) =
      handle_idempotency sha256 key (object body) (resource_of created) (λ r. r) shelf.records in
    (
      product_created result,
      record {
        records = records;
        db = stocked (get_idempotency_record key shelf.records) shelf.db after;
      },
    )
