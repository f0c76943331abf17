-- ===== src/McpServer/ObservingTests.antt =====
-- A paused build that is asked about through the tool, over a codec that knows one state.
use packer_qemu_mcp_server.Prelude.{Text, codes, Outcome, ok}
use packer_qemu_mcp_server.Control.Messages.{Codec}
use packer_qemu_mcp_server.Control.Exchanges.{served_wire}
use packer_qemu_mcp_server.Control.Tests.{codec_of}
use packer_qemu_mcp_server.Supervisor.Machine.{Supervisor}
use packer_qemu_mcp_server.Supervisor.Handlers.{Result, nothing, state_of}
use packer_qemu_mcp_server.Supervisor.Queue.{handle}
use packer_qemu_mcp_server.Supervisor.Tests.{fine, waiting}
use packer_qemu_mcp_server.Supervisor.QueueTests.{prompt}
use packer_qemu_mcp_server.Builds.StartTests.{ready}
use packer_qemu_mcp_server.Builds.Telling.{status_over}
use packer_qemu_mcp_server.McpServer.Tools.{Builds}
use packer_qemu_mcp_server.McpServer.Steering.{reached}
use packer_qemu_mcp_server.McpServer.SteeringTests.{steering, decode, socket}
use packer_qemu_mcp_server.McpServer.Observing.{status_request}

abbrev marshal : Result → Outcome Text Text
marshal nothing = ok (codes "null")
marshal (state_of s) = ok (codes "{}")

abbrev unmarshal : Text → Outcome Text Result
unmarshal t = ok (state_of waiting.state)

abbrev states : Codec Result
states = codec_of marshal unmarshal

abbrev observing : Builds Supervisor Text
observing = record steering {
  status = λ id lines s. (
    reached states (handle decode fine 0 prompt) status_request s,
    ok (
        status_over states ready.view (served_wire states (handle decode fine 0 prompt) s socket)
          lines),
  );
}
