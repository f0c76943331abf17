-- ===== src/Guest/Screens.antt =====
-- internal/guest/guest.go: `Photograph` and `measure`, over what the monitor, the file system and
-- the decoder of pictures answer.
use packer_qemu_mcp_server.Prelude.{ℕ, ◌++◌, Option, none, some, Text, codes, Outcome, ok, err}
use packer_qemu_mcp_server.Qmp.Sessions.{Failure, other}
use packer_qemu_mcp_server.Guest.Input.{Screen}

-- `measure`: the answers to the opening of the file and to the decoding of its header.
unfoldable pub measure : Text → Option Text → Outcome Text (ℕ × ℕ) → Outcome Failure Screen
measure path (some e) size = err (other (codes "reading the capture just taken: " ++ e))
measure path none (err e) =
    err (other (codes "reading the size of " ++ (path ++ (codes ": " ++ e))))
measure path none (ok (width, height)) = ok (record { path = path; width = width; height = height })

-- `Photograph`: `capture` is the error of `Screendump`.
unfoldable pub photograph :
    Text → Option Failure → Option Text → Outcome Text (ℕ × ℕ) → Outcome Failure Screen
unfolding measure
photograph path (some e) opened size = err e
photograph path none opened size = measure path opened size
