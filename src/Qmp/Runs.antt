-- ===== src/Qmp/Runs.antt =====
-- internal/qmp/qmp.go: `run`, with its one budget of time for the lock, the dialling and the
-- conversation.
use packer_qemu_mcp_server.Prelude.{
  ℕ, ltb, ◌++◌, Option, none, some, if◌then◌else◌, not, Text, codes, Outcome, err,
}
use packer_qemu_mcp_server.Qmp.Commands.{Command}
use packer_qemu_mcp_server.Qmp.Sessions.{Failure, unavailable, busy, other, Session, converse}

-- What `acquire` comes to: the lock at a time, no turn before the deadline, or another error.
pub data Acquired : Type 0 where
  locked : ℕ → Acquired
  taken : Acquired
  unopened : Text → Acquired

-- What the system answers to the dialling and to the deadline of the connection.
pub record Dialling : Type 0 where
  pub dial : Option Text
  pub limit : Option Text

abbrev pub busy_error : Failure
busy_error = busy (codes "qemu monitor is busy with another session")

-- Behind the dialling.
unfoldable pub run_dialled : Text → Dialling → Command → Session → Outcome Failure Text × Session
unfolding converse
run_dialled socket d cmd s = elim d.dial [
  | some e ↦ (
    err (unavailable (codes "qemu monitor is not available: " ++ (socket ++ (codes ": " ++ e)))),
    s,
  )
  | none ↦ elim d.limit [ some e ↦ (err (other e), s) | none ↦ converse cmd s ]
]

-- `run`, from what `acquire` gave.
unfoldable pub run :
    Text → ℕ → Acquired → Dialling → Command → Session → Outcome Failure Text × Session
unfolding run_dialled
run socket deadline taken d cmd s = (err busy_error, s)
run socket deadline (unopened e) d cmd s = (err (other e), s)
run socket deadline (locked now) d cmd s =
    if not (ltb now deadline) then (err busy_error, s) else run_dialled socket d cmd s
