-- ===== src/Tokens.antt =====
-- Access tokens and their keys, and passwords (auth/token.service.ts, auth/verification-keys.ts,
-- auth/password.ts).
mod Keys
pub mod Rotation
pub mod Password
pub mod Hashed
unfoldable pub use Keys.*
