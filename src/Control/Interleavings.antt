-- ===== src/Control/Interleavings.antt =====
-- internal/control/control.go: what the connections of a server are sent and leave, however their
-- goroutines interleave.
use packer_qemu_mcp_server.Prelude.{ℕ, ◌≡◌}
use packer_qemu_mcp_server.Control.Messages.{Codec}
use packer_qemu_mcp_server.Control.Servers.{Handler}
use packer_qemu_mcp_server.Control.Connections.{Served, calls}
use packer_qemu_mcp_server.Control.Serial.{serial, IsSerial}

module _ {ℓ κ} {S : Type ℓ} {V : Type κ} (codec : Codec V) (handler : Handler S V) where
  record IsSerialAll (s : S) (w : Served S) : Type (ℓ ⊔ κ) where
    folded : (serial codec handler s w.calls).0 ≡ w.state
    each : (i : ℕ) → IsSerial codec w.calls (serial codec handler s w.calls).1 i (w.conns i)
