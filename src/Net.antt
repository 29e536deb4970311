-- ===== src/Net.antt =====
-- The parts of Go's `net` package on which the request path and the egress guard rest: addresses as
-- byte slices, and host:port texts.
pub mod HostPort
pub mod Ip
