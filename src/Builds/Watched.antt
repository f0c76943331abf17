-- ===== src/Builds/Watched.antt =====
-- internal/builds/builds.go, internal/buildstate/buildstate.go and internal/supervisor/supervisor.go:
-- a wait for a pause, from what the supervisor receives to what the wait reports.
use packer_qemu_mcp_server.Prelude.{ℕ, ◌≡◌, Bool, true, false, ◌||◌, List, Option, Text, Outcome}
use packer_qemu_mcp_server.BuildState.States.{Meta, State}
use packer_qemu_mcp_server.BuildState.Files.{Files}
use packer_qemu_mcp_server.BuildState.Stores.{Written, read_state}
use packer_qemu_mcp_server.Supervisor.Machine.{Action, Supervisor}
use packer_qemu_mcp_server.Supervisor.Loop.{Input, loop, start}
use packer_qemu_mcp_server.Supervisor.Disk.{on_disk}
use packer_qemu_mcp_server.Builds.Waits.{Look}
use packer_qemu_mcp_server.Builds.Aftermath.{Keeps}

-- A build that waits or is over.
abbrev pub rests : State → Bool
rests s = s.paused || s.finished

module _ (decode_call : Text → Option Text) (meta : Meta) (supervisor_pid build_pid now : ℕ)
    (encode : State → Outcome Text Text) (decode : Text → State → State)
    (world : List Action → Written) (files : Files) where
  -- The supervisor behind what it has received, and a look at the build there.
  abbrev pub behind : List Input → Supervisor
  behind inputs = (loop decode_call (start meta supervisor_pid build_pid now) inputs).0

  abbrev pub look_at : List Input → Look
  look_at inputs = record {
    state = read_state decode (on_disk encode world (behind inputs).done files);
    listening = true;
    cancelled = false;
  }

  -- A moment at which the build is under way.
  abbrev pub IsUnderWay : List Input → Type 0
  IsUnderWay inputs =
      (rests (behind inputs).state ≡ false) × Keeps encode decode (behind inputs).state
