-- ===== src/Consumer.antt =====
-- messaging/order-placed.consumer.ts: the consumer that issues a receipt for each placed order.
pub mod Message
pub mod Service
pub mod Receipts
pub mod Accounts
pub mod Once
