-- ===== src/WithRetry.antt =====
-- services/with-retry.ts: the repetition of a transaction that the database aborted.
mod Service
pub mod Attempts
unfoldable pub use Service.*
