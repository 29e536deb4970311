-- ===== src/Anilist.antt =====
-- internal/api/v1/anilist_client.go: the resilient client of the AniList endpoint.
pub mod Breaker
pub mod Bucket
pub mod Client
mod Tests
