-- ===== src/Builds/WatchedTests.antt =====
-- A wait that looks twice: before the supervisor has received anything, and as it holds the build.
use packer_qemu_mcp_server.Prelude.{
  Bool, true, false, List, [], ◌∷◌, suc, zero, ℕ, some, Text, Outcome, ok,
}
use packer_qemu_mcp_server.BuildState.States.{State}
use packer_qemu_mcp_server.Supervisor.Machine.{Supervisor}
use packer_qemu_mcp_server.Supervisor.Loop.{loop, start}
use packer_qemu_mcp_server.Supervisor.Tests.{meta}
use packer_qemu_mcp_server.Builds.Reports.{View}
use packer_qemu_mcp_server.Builds.Waits.{Look}
use packer_qemu_mcp_server.Builds.StartTests.{ready}
use packer_qemu_mcp_server.Builds.AftermathTests.{one_step, left, world, nothing}
use packer_qemu_mcp_server.Builds.Watched.{look_at}

abbrev flag : Bool → ℕ
flag true = 1
flag false = 0

-- Whether it is paused, and the time, with all else known.
abbrev encode : State → Outcome Text Text
encode t = ok (flag t.paused ∷ t.updated_at ∷ [])

abbrev decode : Text → State → State
decode (zero ∷ n ∷ rest) t = record ((start meta 10 11 2).state) { updated_at = n }
decode (suc c ∷ n ∷ rest) t = record (left.state) { updated_at = n }
decode _ t = t

abbrev fresh : Supervisor
fresh = (loop (λ t. some t) (start meta 10 11 2) []).0

abbrev looks : List Look
looks =
    look_at (λ t. some t) meta 10 11 2 encode decode world nothing []
    ∷ look_at (λ t. some t) meta 10 11 2 encode decode world nothing one_step
    ∷ []

abbrev held : View
held = record (ready.view) { live = ok left.state }
