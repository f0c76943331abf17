-- ===== src/Supervisor/Openings.antt =====
-- internal/supervisor/supervisor.go and terminal.go: `Run`, `Open` and `Answer`, and what they open
-- and close.
use packer_qemu_mcp_server.Prelude.{
  ℕ, ℤ, ◌++◌, Bool, true, false, List, [], ◌∷◌, Option, none, some, if◌then◌else◌, Text, codes,
}
use packer_qemu_mcp_server.BuildState.States.{Meta}
use packer_qemu_mcp_server.BuildState.Roots.{Dir, control_socket}
use packer_qemu_mcp_server.Control.Connections.{listen}
use packer_qemu_mcp_server.Supervisor.Environments.{Command, command}
use packer_qemu_mcp_server.Supervisor.Machine.{Answers, Supervisor}
use packer_qemu_mcp_server.Supervisor.Loop.{Input, exited, start, run}

-- What has to be closed: the build's log, the two ends of its terminal, the process, which has to
-- be waited for, and the control socket.
pub data Handle : Type 0 where
  log_file : Handle
  master : Handle
  slave : Handle
  process : Handle
  server : Handle

pub data Op : Type 0 where
  opened : Handle → Op
  runs : Command → Op
  closed : Handle → Op

-- The errors of `pty.Open` and of the command's `Start`.
pub record Opens : Type 0 where
  pub pty : Option Text
  pub command_start : Option Text

-- `Open`, with what it opens and closes.
unfoldable pub open_terminal : Opens → Command → Option Text × List Op
open_terminal o built = elim o.pty [
  | some e ↦ (some (codes "opening a terminal for the build: " ++ e), [])
  | none ↦ elim o.command_start [
    | some e ↦ (
      some (codes "starting the build: " ++ e),
      opened master ∷ opened slave ∷ closed master ∷ closed slave ∷ [],
    )
    | none ↦ (none, opened master ∷ opened slave ∷ runs built ∷ closed slave ∷ [])
  ]
]

-- `Answer`, of the error of the writing: what the terminal has been written, and the error.
unfoldable pub answer_prompt : Option Text → Text → Text × Option Text
answer_prompt none written = (written ++ codes "\r", none)
answer_prompt (some e) written = (written, some (codes "answering the pause prompt: " ++ e))

-- What the calls that open a build come to, and the exit status of a build that is taken down.
pub record Opening : Type 0 where
  pub log : Option Text
  pub terminal : Opens
  pub listening : Option Text
  pub securing : Option Text
  pub answers : Answers
  pub status : ℤ
  pub supervisor_pid : ℕ
  pub build_pid : ℕ
  pub own : List Text

-- Whether the build has exited.
unfoldable pub is_over : List Input → Bool
is_over [] = false
is_over (exited now status ∷ rest) = true
is_over (_ ∷ rest) = is_over rest

-- Whether `run` returns: without a socket it stops the build, and otherwise it waits for the exit.
unfoldable pub returns : Option Text → List Input → Bool
unfolding is_over
returns (some e) inputs = true
returns none inputs = is_over inputs

-- `run`, of what it opens and closes.
unfoldable pub run_ops : Option Text → List Input → List Op
unfolding is_over
run_ops (some e) inputs = closed process ∷ closed master ∷ []
run_ops none inputs =
    opened server
    ∷ (if is_over inputs then closed process ∷ closed server ∷ closed master ∷ [] else [])

-- What `Run` comes to: the supervisor as it was at the end, if it came to be, the error, and what
-- was opened and closed, in order.
pub record RunResult : Type 0 where
  pub supervisor : Option Supervisor
  pub error : Option Text
  pub ops : List Op

module _ (decode : Text → Option Text) (socket : Text) (o : Opening) (meta : Meta) where
  -- `Run`, with an open log.
  unfoldable pub run_logged : Option Text × List Op → List Input → RunResult
  unfolding start run listen returns run_ops
  run_logged (some e, ops) inputs = record {
    supervisor = none;
    error = some e;
    ops = opened log_file ∷ (ops ++ (closed log_file ∷ []));
  }
  run_logged (none, ops) inputs =
      let fresh = start meta o.supervisor_pid o.build_pid o.answers.now in
      let denied = (listen socket o.listening o.securing fresh).0 in
      let ended = run decode o.answers denied o.status fresh inputs in
      record {
        supervisor = some ended.0;
        error = ended.1;
        ops =
            opened log_file
            ∷ (ops
                ++ (run_ops denied inputs
                    ++ (if returns denied inputs then closed log_file ∷ [] else [])));
      }

module _ (decode : Text → Option Text) (o : Opening) (meta : Meta) where
  -- `Run`
  unfoldable pub run_build : Dir → List Input → RunResult
  unfolding run_logged open_terminal command control_socket
  run_build dir inputs = elim meta.command [
    | [] ↦ record {
      supervisor = none;
      error = some (codes "build " ++ (dir.id ++ codes " has no command to run"));
      ops = [];
    }
    | name ∷ arguments ↦ elim o.log [
      | some e ↦ record {
        supervisor = none;
        error = some (codes "opening the build log: " ++ e);
        ops = [];
      }
      | none ↦
          run_logged decode (control_socket dir) o meta
            (open_terminal o.terminal (command o.own dir meta name arguments)) inputs
    ]
  ]
