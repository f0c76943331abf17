-- ===== src/Main.antt =====
-- cmd/packer-qemu-mcp-server: the command line.
pub mod Commands
pub mod Supervising
mod Tests
