-- ===== src/Control.antt =====
-- The package internal/control: calls to a supervisor over its socket.
pub mod Messages
pub mod Servers
pub mod Clients
pub mod Exchanges
pub mod Connections
mod Serial
mod Interleavings
mod Attended
pub mod Tests
mod ConnectionTests
