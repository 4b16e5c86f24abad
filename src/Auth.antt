-- ===== src/Auth.antt =====
-- auth/auth.service.ts and auth/access-denylist.ts: logins, the rotation of refresh tokens, logouts,
-- and the list of access tokens and sessions that are refused.
pub mod Denylist
mod Service
pub mod Families
pub mod Closed
pub mod Reuse
pub mod Access
pub mod Allowed
pub mod Sessions
pub mod Guarded
pub mod Refused
pub mod Passing
pub mod Maintenance
pub mod Expired
pub mod Synced
pub mod Runs
unfoldable pub use Service.*
