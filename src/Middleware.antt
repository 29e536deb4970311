-- ===== src/Middleware.antt =====
-- internal/api/middleware: what every request passes before its handler.
pub mod RateLimit
pub mod RealIp
pub mod Cors
mod Tests
