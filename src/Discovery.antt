-- ===== src/Discovery.antt =====
-- backend/discovery and the discovery loop: finding the five-minute events.
pub mod Parse
pub mod Engine
pub mod Loop
mod Tests
