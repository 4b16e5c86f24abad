-- ===== src/PlaceOrder.antt =====
-- services/place-order.service.ts and repositories/orders.repository.ts: orders that carry an
-- idempotency key are placed once and then replayed.
mod Repository
mod Service
pub mod Answers
pub mod Normal
pub mod Again
unfoldable pub use Repository.*
unfoldable pub use Service.*
