-- ===== src/Tmdb.antt =====
-- internal/tmdb: the mapping of episode numbers.
pub mod Ranges
pub mod Mappings
mod Tests
