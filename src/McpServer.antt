-- ===== src/McpServer.antt =====
-- internal/mcpserver/mcpserver.go: the tools that the server offers, over the service that they
-- call.
mod Arguments
mod Descriptions
mod Manuals
mod Tools
mod Registry
mod Asking
mod Adapter
mod Durations
mod Lines
mod Settling
mod Steering
mod Observing
mod Tests
mod SteeringTests
mod ObservingTests
mod AdapterTests
