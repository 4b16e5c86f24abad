-- ===== src/Publisher.antt =====
-- messaging/order-placed.publisher.ts: the channel on which events are published.
mod Channel
pub mod Batches
unfoldable pub use Channel.*
