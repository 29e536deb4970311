-- ===== src/Streaming.antt =====
-- internal/streaming: the parts that providers share.
pub mod Outage
pub mod VodCache
pub mod Stability
pub mod Flights
mod Tests
