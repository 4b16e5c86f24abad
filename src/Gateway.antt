-- ===== src/Gateway.antt =====
-- gateways/orders.gateway.ts: sockets that join the rooms of orders, and the events sent to them.
mod Service
pub mod Rooms
unfoldable pub use Service.*
