-- ===== src/OrderEvents.antt =====
-- services/order-events.service.ts: the status events of each order, numbered and kept for a client
-- that reconnects. `Buffers` holds the bounds, `Retained` says whose buffer is not evicted, `Replay` what a client that reconnects is sent.
mod Service
pub mod Buffers
pub mod Retained
pub mod Replay
unfoldable pub use Service.*
