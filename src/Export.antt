-- ===== src/Export.antt =====
-- internal/api/v1/importexport.go: what an export writes to a provider.
pub mod Status
pub mod Watch
pub mod Decision
mod Tests
