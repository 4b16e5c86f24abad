-- ===== src/ProductCards/Cache.antt =====
-- redis/cache.ts, on the keys of product cards. Times are in milliseconds, and `up` says whether
-- Redis answers a command.
use one_marketplace.Base.{
  ℕ, ◌+◌, ◌*◌, Bool, not, ◌&&◌, Option, none, some, List, [], ◌∷◌, ltb, if◌then◌else◌,
}
use one_marketplace.Base.Text.{Text, text_eq}
use one_marketplace.Base.Table.{select}
use one_marketplace.ProductCards.Products.{ProductCard}

-- The key product-card:${id} with the card that its text parses to.
pub record Cached : Type 0 where
  pub id : Text
  pub card : ProductCard
  pub expires_at : ℕ

-- A command to Redis: when, and whether it answers.
pub record Moment : Type 0 where
  pub now : ℕ
  pub up : Bool

unfoldable pub live_card : ℕ → Text → List Cached → Option ProductCard
live_card now id [] = none
live_card now id (entry ∷ entries) =
    let rest = live_card now id entries in
    if text_eq entry.id id && ltb now entry.expires_at then some entry.card else rest

-- cacheGet: a failure counts as no value.
unfoldable pub cache_get : Moment → Text → List Cached → Option ProductCard
cache_get at id cache = if at.up then live_card at.now id cache else none

-- DEL
unfoldable pub cache_del : Text → List Cached → List Cached
cache_del id cache = select (λ (entry : Cached). not (text_eq entry.id id)) cache

-- cacheSet: SET ... EX ttl; a failure is ignored.
unfoldable pub cache_set : Moment → Text → ProductCard → ℕ → List Cached → List Cached
cache_set at id card ttl_seconds cache =
    if at.up
    then record { id = id; card = card; expires_at = at.now + ttl_seconds * 1000 }
      ∷ cache_del id cache
    else cache
