-- ===== src/Builds/AftermathTests.antt =====
-- A build whose supervisor took hold of it at a step, and is gone.
use packer_qemu_mcp_server.Prelude.{List, [], ◌∷◌, none, some, Text, codes, Outcome, ok, err}
use packer_qemu_mcp_server.BuildState.States.{State}
use packer_qemu_mcp_server.BuildState.Files.{Files}
use packer_qemu_mcp_server.BuildState.Stores.{Written, read_state}
use packer_qemu_mcp_server.Control.Clients.{no_supervisor}
use packer_qemu_mcp_server.Supervisor.Machine.{Action, Supervisor}
use packer_qemu_mcp_server.Supervisor.Loop.{Input, paused, loop, start}
use packer_qemu_mcp_server.Supervisor.Disk.{on_disk, works}
use packer_qemu_mcp_server.Supervisor.Tests.{fine, meta, boot}
use packer_qemu_mcp_server.Builds.Reports.{View}
use packer_qemu_mcp_server.Builds.StartTests.{ready}

abbrev pub one_step : List Input
one_step = paused fine (boot (codes "one")) ∷ []

abbrev pub left : Supervisor
left = (loop (λ t. some t) (start meta 10 11 2) one_step).0

-- The time, with all else known.
abbrev encode : State → Outcome Text Text
encode t = ok (t.updated_at ∷ [])

abbrev decode : Text → State → State
decode [] t = t
decode (n ∷ rest) t = record (left.state) { updated_at = n }

abbrev pub world : List Action → Written
world rest = (works, [])

abbrev pub nothing : Files
nothing name = none

abbrev gone : View
gone = record (ready.view) {
  live = err (no_supervisor (codes "connection refused"));
  state = read_state decode (on_disk encode world left.done nothing);
}
