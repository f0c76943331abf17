-- ===== src/Keyboard.antt =====
-- The package internal/keyboard: what QEMU's monitor is asked to press.
pub mod Keys
pub mod Layout
mod Tests
