-- ===== src/Supervisor/Tests.antt =====
-- Concrete runs of a supervisor, and the theorems at concrete inputs.
use packer_qemu_mcp_server.Prelude.{
  pos, ◌≡◌, refl, ◌≤◌, ◌++◌, true, false, [], ◌∷◌, List, none, some, Text, codes, to_lower,
  has_prefix, equal_fold, map,
}
use packer_qemu_mcp_server.BuildState.States.{Meta}
use packer_qemu_mcp_server.Pause.Found.{Pause, after_run, interesting, ends_boot_command}
use packer_qemu_mcp_server.Supervisor.Machine.{Answers, Supervisor}
use packer_qemu_mcp_server.Supervisor.Handlers.{resume}
use packer_qemu_mcp_server.Supervisor.Loop.{Input, paused, call, loop, start, fresh_state}
use packer_qemu_mcp_server.Supervisor.Answered.{answers, pauses, answers-loop}
use packer_qemu_mcp_server.Supervisor.Calls.{resume_fails_freezing}
use packer_qemu_mcp_server.Supervisor.Drives.{event_of, drive, drive_of}
use packer_qemu_mcp_server.Supervisor.Driven.{drive-loop}
use packer_qemu_mcp_server.Supervisor.Terminal.{
  Terminal, interrupt, delivered, Event, terminated, expired, reaped_it, closed_it,
}

abbrev pub fine : Answers
fine = record {
  stop = none;
  cont = none;
  dump = none;
  enter = none;
  interrupt = none;
  path = codes "/b/shots/1.png";
  now = 5;
}

abbrev deaf : Answers
deaf = record fine { enter = some (codes "answering the pause prompt: closed") }

abbrev pub meta : Meta
meta = record {
  id = codes "probe";
  template = codes "/t/probe.pkr.hcl";
  working_dir = codes "/t";
  command = codes "packer" ∷ [];
  env = [];
  started_at = 1;
  freeze = none;
  settle = pos 0;
  monitored = true;
}

abbrev idle : Supervisor
idle = record {
  guest = record { frozen = false };
  freezing = true;
  settle = pos 0;
  state = fresh_state 10 11;
  done = [];
}

abbrev pub waiting : Supervisor
waiting = record idle {
  guest = record { frozen = true };
  state = record (fresh_state 10 11) { paused = true; frozen = true };
}

abbrev loose : Supervisor
loose = record idle { freezing = false; state = record (fresh_state 10 11) { paused = true } }

abbrev bound : Supervisor
bound = record idle { state = record (fresh_state 10 11) { awaiting = codes "two" } }

abbrev pub boot : Text → Pause
boot name = record {
  location = after_run;
  step = codes "boot description: \"" ++ (name ++ codes "\", command: <enter>");
}

abbrev boot_done : Pause
boot_done = record { location = after_run; step = codes "stepTypeBootCommand" }

abbrev day : List Input
day =
    paused fine (boot (codes "one"))
    ∷ call fine false (codes "continue") (codes "two")
    ∷ paused fine (boot (codes "one and a half"))
    ∷ paused fine (boot (codes "two"))
    ∷ []

ends_boot_done : ends_boot_command boot_done ≡ true
unfolding ends_boot_command equal_fold
ends_boot_done = refl

pub one_is_a_step : interesting (boot (codes "one")) ≡ true
unfolding interesting has_prefix to_lower
one_is_a_step = refl

drive-loop_example :
    drive_of (loop (λ t. some t) (start meta 10 11 2) day).0
    ≡ drive (λ t. some t) (drive_of (start meta 10 11 2)) (map event_of day)
drive-loop_example = drive-loop (λ t. some t) (start meta 10 11 2) day

answers-loop_example : answers (loop (λ t. some t) (start meta 10 11 2) day).0.done ≤ pauses day
answers-loop_example = answers-loop (λ t. some t) meta 10 11 2 day

resume_fails_freezing_example :
    let t = (resume deaf (codes "two") loose).0 in
    (t.guest.frozen ≡ true) × (t.state.paused ≡ true) × (t.state.awaiting ≡ codes "two")
resume_fails_freezing_example = resume_fails_freezing deaf (codes "two") loose refl refl refl refl

abbrev interrupted_once : List Event
interrupted_once = terminated delivered ∷ expired delivered ∷ reaped_it ∷ closed_it ∷ []

abbrev over : Terminal
over = record { reaped = true; done = true; timers = 1; sent = interrupt ∷ [] }
