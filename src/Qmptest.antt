-- ===== src/Qmptest.antt =====
-- The package internal/qmptest: a stand-in for QEMU's monitor, which the tests of the program run
-- against.
pub mod Servers
pub mod Answers
mod Tests
