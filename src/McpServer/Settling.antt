-- ===== src/McpServer/Settling.antt =====
-- internal/mcpserver/mcpserver.go, internal/builds/builds.go and internal/supervisor/supervisor.go:
-- a build from the tool that starts it to the supervisor that reads its metadata.
use packer_qemu_mcp_server.Prelude.{◌≡◌, Text, Outcome}
use packer_qemu_mcp_server.BuildState.States.{Meta}
use packer_qemu_mcp_server.Builds.Requests.{Request}
use packer_qemu_mcp_server.Builds.Starts.{Service, StartAnswers, Effects, start}
use packer_qemu_mcp_server.Supervisor.Loop
use packer_qemu_mcp_server.McpServer.Tools.{Builds}

-- A service whose `Start` is that of the package builds.
abbrev pub Starts :
    Builds Effects Text → Service → StartAnswers → (Meta → Outcome Text Text) → Type 0
Starts builds service o encode =
    (r : Request) (before : Effects)
    → builds.start r before ≡ ((start service r o encode).1, (start service r o encode).0)
