-- ===== src/RelayProcess.antt =====
-- relay.ts: the process that relays and cleans up the outbox.
mod Main
mod Rows
pub mod Kept
unfoldable pub use Main.*
