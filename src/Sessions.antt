-- ===== src/Sessions.antt =====
-- services/session.service.ts, controllers/sessions.controller.ts and repositories/users.repository.ts:
-- sessions in Redis that last while they are used.
mod Service
pub mod Kept
unfoldable pub use Service.*
