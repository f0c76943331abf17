-- ===== src/BuildState/Tests.antt =====
-- The theorems on builds on disk at concrete inputs.
use packer_qemu_mcp_server.Prelude.{
  ℕ, ◌≡◌, suc, zero, refl, true, [], ◌∷◌, List, none, some, Text, codes, ok, eq_text,
}
use packer_qemu_mcp_server.BuildState.Names.{valid_id, all_id, is_id, is_alnum, matches_id}
use packer_qemu_mcp_server.BuildState.Roots.{
  dir_of, join_path, info, System, create, monitor_socket, control_socket, check_socket_paths,
  check_sockets, prepare, prepare_at, inspect, foreign, then_make, make_dirs, screenshot_dir,
}
use packer_qemu_mcp_server.BuildState.Safety.{IsSafe, create-IsSafe}
use packer_qemu_mcp_server.BuildState.Files.{Files}
use packer_qemu_mcp_server.BuildState.Listings.{Entry}

abbrev template : Text
template = codes "/t/NetBSD 10.pkr.hcl"

abbrev now : Text
now = codes "20260102-030405"

abbrev ready : System
ready = record {
  stat = info true (some 1000) 448;
  uid = 1000;
  mkdir_all = none;
  mkdir = λ path. none;
  exists = λ path. true;
}

abbrev made : List Text
made = codes "/b/x1" ∷ codes "/b/x1/shots" ∷ []

created : create (codes "/b") (codes "x1") ready ≡ (ok (dir_of (codes "/b") (codes "x1")), made)
unfolding create valid_id matches_id all_id is_id is_alnum dir_of join_path check_socket_paths
    check_sockets monitor_socket control_socket prepare prepare_at inspect foreign then_make
    make_dirs screenshot_dir eq_text
created = refl

create-IsSafe_example :
    IsSafe (codes "/b") (codes "x1") ready (dir_of (codes "/b") (codes "x1")) made
create-IsSafe_example =
    create-IsSafe (codes "/b") (codes "x1") ready (dir_of (codes "/b") (codes "x1")) made created

abbrev lines : List Text
lines = codes "one" ∷ codes "two" ∷ codes "three" ∷ []

-- A line of one byte, again and again.
xs : ℕ → Text
xs zero = []
xs (suc n) = b'x' ∷ xs n

abbrev empty : Files
empty name = none

abbrev in_root : List Entry
in_root =
    record { name = codes "a"; is_dir = true; started = 1 }
    ∷ record { name = codes "b"; is_dir = true; started = 2 }
    ∷ []
