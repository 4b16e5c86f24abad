-- ===== src/Checkout.antt =====
-- services/checkout.service.ts: one transaction that takes the stock and the money, and writes the
-- order, its items, the receipt job and the outbox event. Concurrent transactions are serialised by
-- the row locks of the conditional updates, so a checkout is one step on the database.
pub mod Transaction
pub mod Input
pub mod Validate
pub mod Body
pub mod Rows
pub mod Lines
pub mod Stock
pub mod Enough
pub mod Payment
pub mod Placed
pub mod Failed
pub mod Unique
