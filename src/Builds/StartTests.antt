-- ===== src/Builds/StartTests.antt =====
-- The theorems on the start of a build at concrete inputs.
use packer_qemu_mcp_server.Prelude.{
  pos, ◌≡◌, refl, arith, true, false, [], ◌∷◌, none, some, Text, codes, ok, Outcome,
}
use packer_qemu_mcp_server.BuildState.States.{Meta}
use packer_qemu_mcp_server.BuildState.Names.{new_id, all_id, is_id, is_alnum}
use packer_qemu_mcp_server.BuildState.Roots.{dir_of, info, foreign}
use packer_qemu_mcp_server.BuildState.Safety.{IsPrivate}
use packer_qemu_mcp_server.Builds.Requests.{Request}
use packer_qemu_mcp_server.Builds.Launches.{executable}
use packer_qemu_mcp_server.Builds.Waits.{await}
use packer_qemu_mcp_server.Builds.Starts.{Service, StartAnswers, Build, Effects, meta_of, start}
use packer_qemu_mcp_server.Builds.Goes.{LetsStart, start_goes}
use packer_qemu_mcp_server.Supervisor.Loop.{fresh_state}

abbrev pub service : Service
service = record { root = codes "/b"; packer = codes "packer"; executable = codes "/bin/harness" }

abbrev pub request : Request
request = record {
  template = codes "t.hcl";
  vars = [];
  working_dir = [];
  env = [];
  extra_args = [];
  var_files = [];
  debug = none;
  monitor_var = none;
  freeze = none;
  settle = pos 250000000;
}

abbrev pub template : Text
template = codes "/t/t.hcl"

abbrev meta : Meta
meta = record {
  id = codes "x";
  template = template;
  working_dir = codes "/t";
  command = [];
  env = [];
  started_at = 5;
  freeze = none;
  settle = pos 0;
  monitored = true;
}

abbrev pub ready : StartAnswers
ready = record {
  absolute = ok template;
  stat = none;
  parent = λ path. codes "/t";
  stamp = codes "20260102-030405";
  now = 5;
  random = 1 ∷ 2 ∷ 3 ∷ [];
  system = record {
    stat = info true (some 1000) 448;
    uid = 1000;
    mkdir_all = none;
    mkdir = λ path. none;
    exists = λ path. true;
  };
  writes = record { write = none; move = none };
  partial = [];
  launching = record {
    executable = ok (codes "/bin/other");
    log = none;
    null_device = none;
    start = none;
    release = none;
  };
  up = false ∷ true ∷ [];
  over = false ∷ [];
  view = record {
    dir = record { path = codes "/b/x"; id = codes "x" };
    meta = meta;
    state = fresh_state 10 11;
    live = ok (fresh_state 10 11);
    condition = ok (record { name = codes "running"; running = true });
    log = none;
    now = 7;
  };
  packer_log = none;
}

stamp-all_id : all_id ready.stamp ≡ true
unfolding all_id is_id is_alnum
stamp-all_id = refl

ready-IsPrivate : IsPrivate ready.system.uid ready.system.stat
unfolding foreign
ready-IsPrivate = (refl, refl, refl)

ready-await : (await ready.up ≡ true) × (await ready.over ≡ false)
unfolding await
ready-await = (refl, refl)

ready-LetsStart : LetsStart ready template
ready-LetsStart = record {
  found = refl;
  readable = refl;
  stamped = refl;
  stamp_id = stamp-all_id;
  drawn = refl;
  bytes = (omega arith, (omega arith, (omega arith, tt)));
  guarded = ready-IsPrivate;
  rooted = refl;
  makes = λ path. refl;
  writes = refl;
  moves = refl;
  logs = refl;
  empties = refl;
  starts = refl;
  releases = refl;
  reached = ready-await.0;
  stays = ready-await.1;
}

program_found : executable service.executable ready.launching ≡ ok (codes "/bin/harness")
unfolding executable
program_found = refl

-- A codec that keeps the template alone, of the one value that it is asked to read.
abbrev pub encode : Meta → Outcome Text Text
encode m = ok m.template

abbrev id : Text
id = new_id template ready.stamp ready.random

abbrev pub started : Build
started = record {
  meta = meta_of service request ready template (dir_of service.root id);
  dir = dir_of service.root id;
}

-- A codec that is faithful to that build's metadata.
abbrev pub decode : Text → Meta → Meta
decode text m = started.meta

abbrev pub effects : Effects
effects = (start service request ready encode).1

pub started_effects : start service request ready encode ≡ (ok started, effects)
started_effects = λ i. (
  start_goes service request ready encode (λ m. m.template) (λ m. refl) template
      (codes "/bin/harness") (omega arith) ready-LetsStart program_found i,
  effects,
)
