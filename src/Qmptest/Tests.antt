-- ===== src/Qmptest/Tests.antt =====
-- A stand-in that answers a query behind an event.
use packer_qemu_mcp_server.Prelude.{◌≡◌, refl, false, none, Text, codes}
use packer_qemu_mcp_server.Qmp.Sessions.{capabilities}
use packer_qemu_mcp_server.Qmptest.Servers.{Server, get, fresh, reply, event_before}

abbrev asking : Text
asking = codes "query-status"

abbrev set_up : Server
set_up =
    event_before asking (codes "RTC_CHANGE")
      (reply asking (codes "{\"running\": true}") (fresh false))

set_up_loud : set_up.silent ≡ false
unfolding event_before reply fresh
set_up_loud = refl

set_up_accepts : get set_up.failures capabilities.execute ≡ none
unfolding get event_before reply fresh
set_up_accepts = refl
