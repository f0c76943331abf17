-- ===== src/BuildState/Stores.antt =====
-- internal/buildstate/buildstate.go: `WriteMeta`, `Meta`, `PublishState` and `State`, over the files
-- of a build's directory.
use packer_qemu_mcp_server.Prelude.{ℕ, pos, false, [], Option, none, Text, codes, Outcome}
use packer_qemu_mcp_server.BuildState.States.{Meta, State}
use packer_qemu_mcp_server.BuildState.Files.{Files, Writes, write_json, read_json}

abbrev pub meta_file : Text
meta_file = codes "meta.json"

abbrev pub state_file : Text
state_file = codes "state.json"

-- `buildstate.Meta{}`
abbrev pub no_meta : Meta
no_meta = record {
  id = [];
  template = [];
  working_dir = [];
  command = [];
  env = [];
  started_at = 0;
  freeze = none;
  settle = pos 0;
  monitored = false;
}

-- `buildstate.State{}`
abbrev pub no_state : State
no_state = record {
  supervisor_pid = 0;
  build_pid = 0;
  step = [];
  label = [];
  paused = false;
  awaiting = [];
  frozen = false;
  screenshot = [];
  screenshot_label = [];
  trail = [];
  note = [];
  finished = false;
  exit_code = pos 0;
  finished_at = 0;
  updated_at = 0;
}

-- What the system answers to a write, with what a write that fails leaves.
abbrev pub Written : Type 0
Written = Writes × Text

unfoldable pub write_meta :
    (Meta → Outcome Text Text) → Written → Meta → Files → Files × Option Text
unfolding write_json
write_meta encode (answers, partial) meta files =
    write_json meta_file (encode meta) answers partial files

unfoldable pub read_meta : (Text → Meta → Meta) → Files → Meta
unfolding read_json
read_meta decode files = read_json decode meta_file no_meta files

-- `PublishState`, at a time.
unfoldable pub publish_state :
    (State → Outcome Text Text) → Written → ℕ → State → Files → Files × Option Text
unfolding write_json
publish_state encode (answers, partial) now state files =
    write_json state_file (encode (record state { updated_at = now })) answers partial files

unfoldable pub read_state : (Text → State → State) → Files → State
unfolding read_json
read_state decode files = read_json decode state_file no_state files
