-- ===== src/Supervisor/Runs.antt =====
-- internal/supervisor/supervisor.go: what holds of a supervisor whatever pauses, calls and exit it
-- receives, in whatever order.
use packer_qemu_mcp_server.Prelude.{ℕ, ◌≡◌, refl, true, false, []}
use packer_qemu_mcp_server.BuildState.States.{Meta}
use packer_qemu_mcp_server.Supervisor.Machine.{Supervisor}
use packer_qemu_mcp_server.Supervisor.Loop.{paused, start}
use packer_qemu_mcp_server.Supervisor.Live.{IsLive}

-- A supervisor whose build has exited.
pub record IsDone (s : Supervisor) : Type 0 where
  pub over : s.state.finished ≡ true
  pub let_go : s.state.paused ≡ false
  pub nowhere : s.state.awaiting ≡ []
  pub thawed : s.state.frozen ≡ false
  pub dark : (s.state.screenshot ≡ []) × (s.state.screenshot_label ≡ [])

pub start-IsLive :
    (meta : Meta) (supervisor_pid build_pid now : ℕ)
    → IsLive (start meta supervisor_pid build_pid now)
unfolding start
start-IsLive meta supervisor_pid build_pid now = record {
  unfinished = refl;
  mirrored = refl;
  held = λ f h. cc;
}
