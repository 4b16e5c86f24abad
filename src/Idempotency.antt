-- ===== src/Idempotency.antt =====
-- services/idempotency.service.ts: a request with an Idempotency-Key is answered once, and repetitions
-- of it with the recorded answer.
pub mod Json
mod Service
pub mod Canonical
pub mod History
unfoldable pub use Service.*
