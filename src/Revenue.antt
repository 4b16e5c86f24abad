-- ===== src/Revenue.antt =====
-- The revenue of products (repositories/products.repository.ts, report.ts).
mod Report
pub mod Sums
pub mod Accounted
unfoldable pub use Report.*
