-- ===== src/RateLimiter.antt =====
-- services/rate-limiter.service.ts: the sliding window of a client's requests, kept in Redis.
mod Service
pub mod Window
unfoldable pub use Service.*
