-- ===== src/Supervisor/Stops.antt =====
-- internal/supervisor/supervisor.go: the pauses at which `reached` stops the build.
use packer_qemu_mcp_server.Prelude.{◌≡◌, sym, ap, ◌∙◌, true, [], none, arith}
use packer_qemu_mcp_server.Pause.Found.{Pause, label, interesting, ends_boot_command}
use packer_qemu_mcp_server.Supervisor.Machine.{Answers, Supervisor, publish, take_hold, picture}
use packer_qemu_mcp_server.Supervisor.Handlers.{reached}
use packer_qemu_mcp_server.Supervisor.Courses.{Halts, IsAhead, dull, past, stop, course}
use packer_qemu_mcp_server.Supervisor.Answered.{answers, answers-take_hold, paused-take_hold}

-- A build that has stopped at the pause `p`: it waits there, awaits no step any more, and has not been answered;
-- its guest is frozen if it is to be and the monitor obeyed, and the picture shown is the one
-- taken here, if there is one, under the label of this pause.
pub record StoppedAt (o : Answers) (p : Pause) (s t : Supervisor) : Type 0 where
  pub waits : t.state.paused ≡ true
  pub arrived : t.state.awaiting ≡ []
  pub unanswered : answers t.done ≡ answers s.done
  pub labelled : t.state.label ≡ label p
  pub frozen_here : s.freezing ≡ true → o.stop ≡ none → t.state.frozen ≡ true
  pub pictured : t.state.screenshot ≡ picture o.dump o.path
  pub caption : o.dump ≡ none → t.state.screenshot_label ≡ label p

take_hold_stops :
    (o : Answers) (p : Pause) (s t : Supervisor)
    → Halts p s t
    → StoppedAt o p s (publish o.now (take_hold o t))
unfolding take_hold publish
take_hold_stops o p s t h = record {
  waits = paused-take_hold o t ∙ h.halts_paused;
  arrived = ground arith;
  unanswered = answers-take_hold o t ∙ ap answers h.halts_done;
  labelled = ground arith;
  frozen_here = λ f e. ground arith;
  pictured = ground arith;
  caption = λ e. ground arith;
}

-- The build stops at an interesting pause unless it is being run forward to a step, the pause is
-- not that step, and the boot command goes on.
pub reached_stops :
    (o : Answers) (p : Pause) (s : Supervisor)
    → interesting p ≡ true
    → ¬ IsAhead p s
    → StoppedAt o p s (reached o p s)
reached_stops o p s i a = elim (course o p s) [
  | dull h e ↦ absurd (cc (sym i ∙ h))
  | past h ahead e ↦ absurd (a ahead)
  | stop h b t halts e ↦ rw e (take_hold_stops o p s t halts)
]

interesting-ends_boot_command : (p : Pause) → ends_boot_command p ≡ true → interesting p ≡ true
unfolding interesting ends_boot_command
interesting-ends_boot_command p h = ground arith

-- The build is never run past the end of its boot command, whatever step it is being run to.
pub reached_boot_end :
    (o : Answers) (p : Pause) (s : Supervisor)
    → ends_boot_command p ≡ true
    → StoppedAt o p s (reached o p s)
reached_boot_end o p s h = reached_stops o p s (interesting-ends_boot_command p h) (λ a. cc (a.2))
