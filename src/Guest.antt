-- ===== src/Guest.antt =====
-- The package internal/guest: one virtual machine, and whether the harness holds it still.
pub mod Machine
pub mod Input
pub mod Screens
