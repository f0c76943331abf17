-- ===== src/Packertest.antt =====
-- The package internal/packertest: the shell scripts that the tests run instead of Packer.
mod Scripts
mod Prints
mod Tests
