-- ===== src/Examples.antt =====
-- Runs of the model on a small shop: two products, a buyer and a few requests.
pub mod Shop
mod Orders
mod Status
mod Jobs
mod Messages
mod Relaying
mod Limits
mod Access
mod Signing
mod Requests
mod Upkeep
mod Keys
mod Sockets
mod Cards
mod Sales
mod Again
