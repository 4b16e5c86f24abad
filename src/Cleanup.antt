-- ===== src/Cleanup.antt =====
-- messaging/outbox-cleanup.ts: published rows are deleted, a batch at a time, after a week.
mod Service
pub mod Deleted
unfoldable pub use Service.*
