-- ===== src/Supervisor/Loop.antt =====
-- internal/supervisor/supervisor.go: `Run` and `run`, from what the build was asked to do to the
-- exit of the build, over the sequence in which the loop's `select` receives.
use packer_qemu_mcp_server.Prelude.{
  ℕ, ℤ, pos, negsuc, ltb, Bool, true, false, List, [], ◌∷◌, Option, none, some, if◌then◌else◌, Text,
}
use packer_qemu_mcp_server.BuildState.States.{Meta, State, freezing}
use packer_qemu_mcp_server.Pause.Found.{Pause}
use packer_qemu_mcp_server.Supervisor.Machine.{Answers, Supervisor, note, publish, act, interrupted}
use packer_qemu_mcp_server.Supervisor.Handlers.{reached, finish, dispatch, Reply}

-- `maximumSettle`, one second.
abbrev pub maximum_settle : ℕ
maximum_settle = 1000000000

-- `min(meta.Settle, maximumSettle)`
abbrev pub min_settle : ℤ → ℤ
min_settle (pos n) = pos (if ltb maximum_settle n then maximum_settle else n)
min_settle (negsuc n) = negsuc n

abbrev pub fresh_state : ℕ → ℕ → State
fresh_state supervisor_pid build_pid = record {
  supervisor_pid = supervisor_pid;
  build_pid = build_pid;
  step = [];
  label = [];
  paused = false;
  awaiting = [];
  frozen = false;
  screenshot = [];
  screenshot_label = [];
  trail = [];
  note = [];
  finished = false;
  exit_code = pos 0;
  finished_at = 0;
  updated_at = 0;
}

-- The supervisor of a build whose terminal has been opened, as it has published itself.
unfoldable pub start : Meta → ℕ → ℕ → ℕ → Supervisor
unfolding freezing publish
start meta supervisor_pid build_pid now = publish now (record {
  guest = record { frozen = false };
  freezing = freezing meta;
  settle = min_settle meta.settle;
  state = fresh_state supervisor_pid build_pid;
  done = [];
})

-- What the loop receives: a pause, a call with whether its caller has given up, or the exit.
pub data Input : Type 0 where
  paused : Answers → Pause → Input
  call : Answers → Bool → Text → Text → Input
  exited : ℕ → ℤ → Input

-- The calls' answers, in order; a call that has expired gets none.
module _ (decode : Text → Option Text) where
  unfoldable pub loop : Supervisor → List Input → Supervisor × List Reply
  loop s [] = (s, [])
  loop s (paused o p ∷ rest) = loop (reached o p s) rest
  loop s (call o true method params ∷ rest) = loop s rest
  loop s (call o false method params ∷ rest) =
      let (t, reply) = dispatch decode o method params s in
      let (u, replies) = loop t rest in (u, reply ∷ replies)
  loop s (exited now status ∷ rest) = (finish now status s, [])

  -- `run`: without a control socket the build is taken down at once.
  unfoldable pub run :
      Answers → Option Text → ℤ → Supervisor → List Input → Supervisor × Option Text
  unfolding loop note act finish
  run o (some err) status s inputs =
      (finish o.now status (act (interrupted o.interrupt) (note err s)), some err)
  run o none status s inputs = ((loop s inputs).0, none)
