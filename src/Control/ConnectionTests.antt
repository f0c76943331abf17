-- ===== src/Control/ConnectionTests.antt =====
-- Two connections whose calls interleave, and the theorem on them there.
use packer_qemu_mcp_server.Prelude.{ℕ, true, [], ◌∷◌, Text, codes}
use packer_qemu_mcp_server.Control.Messages.{Request}
use packer_qemu_mcp_server.Control.Tests.{plain, echo, ended}
use packer_qemu_mcp_server.Control.Connections.{reading, Served, served, move, take, ask}

abbrev first_request : Request
first_request = record { id = 1; method = codes "a"; params = [] }

abbrev second_request : Request
second_request = record { id = 1; method = codes "b"; params = [] }

abbrev as_text : Request → Text
as_text r = r.id ∷ ended r.method r.params

abbrev both_read : Served ℕ
both_read =
    take 1 (as_text second_request) second_request (
      take 0 (as_text first_request) first_request
        (move 1 reading (move 0 reading (served true 6))))

abbrev both_asked : Served ℕ
both_asked = ask plain echo 0 first_request (ask plain echo 1 second_request both_read)
