-- ===== src/Relay.antt =====
-- messaging/outbox-relay.ts, and of messaging/order-placed.publisher.ts what a publish can come to.
mod Batch
pub mod Delivery
mod Rows
pub mod Taken
pub mod Progress
unfoldable pub use Batch.*
