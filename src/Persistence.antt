-- ===== src/Persistence.antt =====
-- backend/persistence: the stores that keep positions, claims, prices and coin settings in SQLite.
pub mod Columns
pub mod Database
pub mod Stored
pub mod Positions
pub mod Claims
pub mod Prices
pub mod Coins
mod Tests
