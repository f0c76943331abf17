-- ===== src/Qmp.antt =====
-- The package internal/qmp: one command at a time to QEMU's monitor.
pub mod Locks
pub mod Exclusion
pub mod Commands
pub mod Sessions
pub mod Runs
pub mod Polling
pub mod Turns
pub mod Blames
pub mod Talks
mod Tests
