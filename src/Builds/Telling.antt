-- ===== src/Builds/Telling.antt =====
-- internal/builds/builds.go: `Continue`, `Status` and `tell` over the control socket.
use packer_qemu_mcp_server.Prelude.{
  ℤ, Option, none, some, true, false, Text, codes, Outcome, ok, err,
}
use packer_qemu_mcp_server.Control.Messages.{Codec}
use packer_qemu_mcp_server.Control.Clients.{CallError, Wire, call, refusal}
use packer_qemu_mcp_server.BuildState.States.{State}
use packer_qemu_mcp_server.Supervisor.Handlers.{Result, nothing, state_of}
use packer_qemu_mcp_server.Supervisor.Loop.{fresh_state}
use packer_qemu_mcp_server.Builds.Reports.{View, Report, tell, status}

-- The error of a call.
abbrev pub error_of {κ} : {V : Type κ} → Outcome CallError V → Option CallError
error_of (ok v) = none
error_of (err e) = some e

module _ {κ} {V : Type κ} (codec : Codec V) where
  -- `tell`, of what `Open` gave.
  unfoldable pub tell_over :
      Outcome Text View → Wire → Text → Option (Outcome Text Text) → Option Text
  unfolding tell call
  tell_over (err e) wire method params = some e
  tell_over (ok v) wire method params =
      tell v method (error_of (call codec wire method params false))

  -- `Continue`; `encode` is what `supervisor.Instructions` of a label is written as.
  unfoldable pub continue_over :
      (Text → Outcome Text Text) → Outcome Text View → Wire → Text → Option Text
  unfolding tell_over
  continue_over encode opened wire until =
      tell_over opened wire (codes "continue") (some (encode until))

-- What `tell` gives of a handler's error.
abbrev pub refused : Text → Option Text → Option Text
refused method none = none
refused method (some e) = some (refusal method e)

-- The state that a call of `status` leaves in the variable that it is decoded into, which is the
-- zero state before.
unfoldable pub live_of : Outcome CallError (Option Result) → Outcome CallError State
live_of (err e) = err e
live_of (ok none) = ok (fresh_state 0 0)
live_of (ok (some nothing)) = ok (fresh_state 0 0)
live_of (ok (some (state_of s))) = ok s

-- What `observe` asks the supervisor for.
unfoldable pub observe_live : Codec Result → Wire → Outcome CallError State
unfolding call live_of
observe_live codec wire = live_of (call codec wire (codes "status") none true)

-- `Status` of a build whose supervisor is asked over a wire.
unfoldable pub status_over : Codec Result → View → Wire → ℤ → Report
unfolding status observe_live
status_over codec v wire lines = status (record v { live = observe_live codec wire }) lines
