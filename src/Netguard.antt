-- ===== src/Netguard.antt =====
-- internal/netguard: the guard of every outbound dial.
pub mod PublicIp
pub mod Dial
pub mod Tests
