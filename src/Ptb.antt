-- ===== src/Ptb.antt =====
-- The price to beat, which is the coin's price when its event opened: backend/ptb.
pub mod Record
pub mod Fetcher
mod Tests
