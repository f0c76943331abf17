-- ===== src/McpServer/Observing.antt =====
-- internal/mcpserver/mcpserver.go, internal/builds/builds.go, internal/control/control.go and
-- internal/supervisor/supervisor.go: the tool that reports on a build, from its call to the state
-- that the supervisor holds.
use packer_qemu_mcp_server.Prelude.{ℕ, ℤ, ◌≡◌, [], Option, Text, codes, ok}
use packer_qemu_mcp_server.Control.Messages.{Request, Codec, IsFaithful}
use packer_qemu_mcp_server.Control.Exchanges.{served_wire}
use packer_qemu_mcp_server.Supervisor.Machine.{Answers, Supervisor}
use packer_qemu_mcp_server.Supervisor.Handlers.{Result}
use packer_qemu_mcp_server.Supervisor.Queue.{Passage, handle}
use packer_qemu_mcp_server.Builds.Reports.{View, status}
use packer_qemu_mcp_server.Builds.Telling.{status_over}
use packer_qemu_mcp_server.McpServer.Tools.{Builds}
use packer_qemu_mcp_server.McpServer.Steering.{reached}

abbrev pub status_request : Request
status_request = record { id = 1; method = codes "status"; params = [] }

module _ (codec : Codec Result) (IsString IsMessage : Text → Type 0)
    (law : IsFaithful codec IsString IsMessage) (decode : Text → Option Text) (o : Answers)
    (start : ℕ) (p : Passage) where
  -- A service whose `Status` is that of the package builds, over the socket of a supervisor.
  abbrev pub Observes : Builds Supervisor Text → View → Text → Type 0
  Observes builds v socket =
      (id : Text) (lines : ℤ) (s : Supervisor)
      → builds.status id lines s ≡ (
        reached codec (handle decode o start p) status_request s,
        ok (status_over codec v (served_wire codec (handle decode o start p) s socket) lines),
      )
