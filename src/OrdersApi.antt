-- ===== src/OrdersApi.antt =====
-- controllers/orders.controller.ts: the endpoints of orders, and the statuses of their errors.
mod Controller
pub mod Owners
pub mod Listing
pub mod Listed
pub mod Stream
unfoldable pub use Controller.*
