-- ===== src/BuildState.antt =====
-- The package internal/buildstate: what is kept of a build on disk.
pub mod States
pub mod Names
pub mod Slugs
pub mod Roots
pub mod Safety
pub mod Logs
pub mod Lines
pub mod Files
pub mod Stores
pub mod Replaced
pub mod Listings
mod Tests
