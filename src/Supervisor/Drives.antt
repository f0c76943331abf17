-- ===== src/Supervisor/Drives.antt =====
-- internal/supervisor/supervisor.go: what the supervisor does to the build, as a machine of its own
-- that knows no guest, no disk and no clock. It is the specification of the loop in that respect.
use packer_qemu_mcp_server.Prelude.{
  Bool, true, false, not, List, [], ◌∷◌, Option, none, some, if◌then◌else◌, Text, codes, is_empty,
  eq_text,
}
use packer_qemu_mcp_server.Pause.Found.{Pause, interesting, matches, ends_boot_command}
use packer_qemu_mcp_server.Supervisor.Machine.{Action, entered, interrupted, Supervisor}
use packer_qemu_mcp_server.Supervisor.Handlers.{instructions}
use packer_qemu_mcp_server.Supervisor.Loop.{Input, paused, call, exited}

-- An input, with what the terminal answers and nothing else that the world answers.
pub data Event : Type 0 where
  met : Option Text → Pause → Event
  told : Option Text → Option Text → Bool → Text → Text → Event
  ended : Event

abbrev pub event_of : Input → Event
event_of (paused o p) = met o.enter p
event_of (call o gone method params) = told o.enter o.interrupt gone method params
event_of (exited now status) = ended

-- `pressed` is what the terminal was told, the latest first.
pub record Drive : Type 0 where
  pub waits : Bool
  pub goal : Text
  pub over : Bool
  pub pressed : List Action

abbrev pub go : Option Text → Drive → Drive
go enter d = record d { waits = false; pressed = entered enter ∷ d.pressed }

abbrev pub stay : Drive → Drive
stay d = record d { waits = true; goal = [] }

-- A pause is gone past if nobody wants to step through it, or if it is on the way to the goal.
unfoldable pub meet : Option Text → Pause → Drive → Drive
meet enter p d =
    if not (interesting p)
    then go enter d
    else if is_empty d.goal
    then stay d
    else if matches p d.goal
    then stay d
    else if ends_boot_command p
    then stay d
    else go enter d

-- A build is let go of only where it waits; where the carriage return fails, it still waits.
unfoldable pub let_on : Option Text → Text → Drive → Drive
let_on enter until d =
    if d.waits
    then record (go enter d) { waits = elim enter [ none ↦ false | some e ↦ true ]; goal = until }
    else d

abbrev pub give_up : Option Text → Drive → Drive
give_up interrupt d = record d {
  waits = false;
  goal = [];
  pressed = interrupted interrupt ∷ d.pressed;
}

module _ (decode : Text → Option Text) where
  unfoldable pub obey : Option Text → Option Text → Text → Text → Drive → Drive
  unfolding let_on
  obey enter interrupt method params d =
      if eq_text method (codes "continue")
      then let_on enter (instructions decode params) d
      else if eq_text method (codes "abort")
      then give_up interrupt d
      else d

  unfoldable pub drive : Drive → List Event → Drive
  unfolding meet obey
  drive d [] = d
  drive d (met enter p ∷ rest) = drive (meet enter p d) rest
  drive d (told enter interrupt true method params ∷ rest) = drive d rest
  drive d (told enter interrupt false method params ∷ rest) =
      drive (obey enter interrupt method params d) rest
  drive d (ended ∷ rest) = record d { waits = false; goal = []; over = true }

-- What a supervisor has done to the terminal, among all that it has done.
abbrev pub presses : List Action → List Action
presses [] = []
presses (entered e ∷ rest) = entered e ∷ presses rest
presses (interrupted e ∷ rest) = interrupted e ∷ presses rest
presses (_ ∷ rest) = presses rest

abbrev pub drive_of : Supervisor → Drive
drive_of s = record {
  waits = s.state.paused;
  goal = s.state.awaiting;
  over = s.state.finished;
  pressed = presses s.done;
}
