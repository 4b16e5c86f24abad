-- ===== src/Entities.antt =====
-- entities/*.ts: the tables, and the database that holds them. A `bigint` identity is a number, a
-- `uuid` the number of its 128 bits, a `timestamptz` its milliseconds, and `text` a `Text`.
mod Event
mod Rows
unfoldable pub use Event.*
pub use Rows.*
