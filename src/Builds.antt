-- ===== src/Builds.antt =====
-- The package internal/builds: builds started, found again and driven.
pub mod Requests
pub mod Reports
pub mod Waits
pub mod Launches
pub mod Starts
pub mod Started
pub mod Goes
pub mod StartTests
pub mod Input
pub mod Sorted
pub mod Waiting
pub mod Typing
pub mod Telling
pub mod Aftermath
pub mod Watched
mod Tests
mod AftermathTests
mod WatchedTests
