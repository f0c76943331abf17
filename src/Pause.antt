-- ===== src/Pause.antt =====
-- The package internal/pause, in modules for the prompt's pattern, the pauses, the scanner, and
-- what is proved of them.
pub mod Pattern
pub mod Found
pub mod Scanner
pub mod Streams
pub mod Prompts
pub mod Labels
pub mod Names
pub mod Tests
