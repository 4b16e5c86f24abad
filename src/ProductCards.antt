-- ===== src/ProductCards.antt =====
-- services/product-card.service.ts with redis/cache.ts, redis/lock.ts and repositories/
-- products.repository.ts: cards of products, cached in Redis and loaded under a lock.
pub mod Products
pub mod Cache
pub mod Lock
mod Service
pub mod Fresh
pub mod Loads
pub mod Queue
unfoldable pub use Service.*
