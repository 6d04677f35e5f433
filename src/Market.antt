-- ===== src/Market.antt =====
-- backend/market_data and the cleanup of ended events: the live prices of the markets, the routing of
-- WebSocket messages to them, and what is removed when an event ends.
pub mod LivePrice
pub mod Bridge
pub mod Rtds
pub mod CoinPrices
pub mod Mapping
pub mod Cleanup
pub mod Subscriptions
mod Tests
