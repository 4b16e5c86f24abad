-- ===== src/AuthApi.antt =====
-- controllers/auth.controller.ts: the endpoints of logins, refreshes and logouts.
mod Controller
pub mod LoggedOut
unfoldable pub use Controller.*
