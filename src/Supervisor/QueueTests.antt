-- ===== src/Supervisor/QueueTests.antt =====
-- Requests that are handed to a busy supervisor, and the theorems on their answers there.
use packer_qemu_mcp_server.Prelude.{
  ◌≡◌, refl, ◌≤◌, ◌++◌, true, false, [], ◌∷◌, none, some, codes, arith, err,
}
use packer_qemu_mcp_server.Supervisor.Tests.{fine}
use packer_qemu_mcp_server.Supervisor.Handlers.{Reply, nothing}
use packer_qemu_mcp_server.Supervisor.Loop.{call}
use packer_qemu_mcp_server.Supervisor.Queue.{Passage, deadline, before_end, enqueue, inputs_of}
use packer_qemu_mcp_server.Supervisor.Patience.{late_call_acts}

-- Taken two seconds on, and replied to eight seconds on.
abbrev held_up : Passage
held_up = record {
  taken = some 2000000000;
  looked = 2000000000;
  replied = 8000000000;
  stopped = none;
}

abbrev pub prompt : Passage
prompt = record { taken = some 1; looked = 2; replied = 3; stopped = none }

-- What the loop replies to a call that nothing went wrong with.
abbrev done_well : Reply
done_well = (nothing, none)

held_up_looked : 2000000000 ≤ deadline 0
unfolding deadline
held_up_looked = omega arith

held_up_running : before_end 2000000000 held_up.stopped ≡ true
unfolding before_end
held_up_running = refl

late_call_acts_example :
    ((enqueue 0 held_up (codes "abort") done_well).0
      ≡ err (codes "abort" ++ codes " is taking too long"))
    × (inputs_of 0 held_up fine (codes "abort") [] ≡ call fine false (codes "abort") [] ∷ [])
late_call_acts_example =
    late_call_acts 0 held_up fine (codes "abort") [] done_well 2000000000 refl held_up_looked
      held_up_running held_up_looked (omega arith)
