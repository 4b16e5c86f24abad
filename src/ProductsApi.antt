-- ===== src/ProductsApi.antt =====
-- controllers/products.controller.ts: the endpoints of products.
mod Controller
pub mod Insertable
pub mod Repeated
unfoldable pub use Controller.*
