-- ===== src/Guest/Machine.antt =====
-- internal/guest/guest.go: `Guest` with `Freeze`, `Resume` and `Frozen`. What the monitor answers
-- is an argument: `none`, or the text of the error.
use packer_qemu_mcp_server.Prelude.{Bool, true, false, Option, none, some, if◌then◌else◌, Text}

pub record Guest : Type 0 where
  pub frozen : Bool

unfoldable pub freeze : Option Text → Guest → Guest × Option Text
freeze (some err) g = (g, some err)
freeze none g = (record g { frozen = true }, none)

unfoldable pub resume : Option Text → Guest → Guest × Option Text
resume cont g =
    if g.frozen
    then elim cont [ some err ↦ (g, some err) | none ↦ (record g { frozen = false }, none) ]
    else (g, none)
