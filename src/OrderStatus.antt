-- ===== src/OrderStatus.antt =====
-- services/order-status.service.ts: the state machine of an order's status.
mod Service
pub mod Transitions
unfoldable pub use Service.*
