-- ===== src/Supervisor.antt =====
-- The package internal/supervisor: one detached build and its terminal.
pub mod Machine
pub mod Handlers
pub mod Queue
pub mod Patience
pub mod Environments
pub mod Inherited
pub mod Output
pub mod Transcripts
pub mod Terminal
pub mod Signals
pub mod Loop
pub mod Openings
pub mod Descriptors
pub mod Courses
pub mod Notes
pub mod Live
pub mod Runs
pub mod Published
pub mod Disk
pub mod Answered
pub mod Forward
pub mod Stops
pub mod Calls
pub mod Drives
pub mod Driven
pub mod Tests
pub mod QueueTests
mod OutputTests
