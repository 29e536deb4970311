-- ===== src/Import.antt =====
-- internal/api/v1/importexport.go: what an import of a provider's list writes.
pub mod Entries
pub mod Services
pub mod Run
mod Tests
