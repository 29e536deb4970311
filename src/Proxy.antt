-- ===== src/Proxy.antt =====
-- internal/api/v1: the media proxy.
pub mod Hosts
pub mod Allowlist
pub mod FillLimiter
pub mod Transport
pub mod Answer
pub mod Nonce
pub mod Serve
pub mod Upstreams
pub mod Handler
pub mod Download
mod Tests
