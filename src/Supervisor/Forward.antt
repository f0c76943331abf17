-- ===== src/Supervisor/Forward.antt =====
-- internal/supervisor/supervisor.go: running a build forward to a named step.
use packer_qemu_mcp_server.Prelude.{◌≡◌, Bool, false, List, [], ◌∷◌, none, if◌then◌else◌, Text}
use packer_qemu_mcp_server.BuildState.States.{Frame}
use packer_qemu_mcp_server.Guest.Machine.{Guest}
use packer_qemu_mcp_server.Pause.Found.{Pause, label, interesting, matches, ends_boot_command}
use packer_qemu_mcp_server.Supervisor.Machine.{Answers, Supervisor, picture}
use packer_qemu_mcp_server.Supervisor.Handlers.{reached}

abbrev pub Arrival : Type 0
Arrival = Answers × Pause

unfoldable pub reached_all : Supervisor → List Arrival → Supervisor
reached_all s [] = s
reached_all s ((o, p) ∷ rest) = reached_all (reached o p s) rest

-- The frames of the boot steps among them.
abbrev pub frames : List Arrival → List Frame
frames [] = []
frames ((o, p) ∷ rest) =
    let frame : Frame = record { label = label p; screenshot = picture o.dump o.path } in
    if interesting p then frame ∷ frames rest else frames rest

-- A pause on the way to the step named `asked`, whose prompt the terminal takes an answer to.
abbrev pub OnTheWay : Text → Arrival → Type 0
OnTheWay asked (o, p) = (matches p asked ≡ false) × (ends_boot_command p ≡ false) × (o.enter ≡ none)

-- A build that is under way to `asked`: it is not paused, and its trail, guest and published freezing are these.
pub record UnderWay (asked : Text) (trail : List Frame) (g : Guest) (f : Bool) (t : Supervisor)
    : Type 0 where
  pub going : t.state.paused ≡ false
  pub aimed : t.state.awaiting ≡ asked
  pub seen : t.state.trail ≡ trail
  pub same_guest : t.guest ≡ g
  pub same_frozen : t.state.frozen ≡ f
