-- ===== src/Builds/Tests.antt =====
-- The theorems on the build service at concrete inputs.
use mathlib.Core.List.{Permᴰ}
use packer_qemu_mcp_server.Prelude.{
  pos, ◌≡◌, refl, inl, inr, true, false, [], ◌∷◌, List, none, Text, codes, ok, err, eq_text,
  eq_text_sound, Bool-cases, subst,
}
use packer_qemu_mcp_server.BuildState.States.{State}
use packer_qemu_mcp_server.BuildState.Roots.{Dir}
use packer_qemu_mcp_server.Keyboard.Keys.{
  Press, type_text, type_from, typed, unshifted, shifted, keys, keys_from,
}
use packer_qemu_mcp_server.Builds.Requests.{Request, Variables, command, value}
use packer_qemu_mcp_server.Builds.Sorted.{command-Permᴰ}
use packer_qemu_mcp_server.Control.Clients.{no_supervisor}
use packer_qemu_mcp_server.Builds.Reports.{View}
use packer_qemu_mcp_server.Builds.Waits.{Look}
use packer_qemu_mcp_server.Builds.Input.{all_presses}
use packer_qemu_mcp_server.Supervisor.Loop.{fresh_state}

abbrev dir : Dir
dir = record { path = codes "/b/x"; id = codes "x" }

abbrev request : Request
request = record {
  template = codes "t.hcl";
  vars = (codes "b", codes "1") ∷ (codes "a", codes "2") ∷ [];
  working_dir = [];
  env = [];
  extra_args = [];
  var_files = [];
  debug = none;
  monitor_var = none;
  freeze = none;
  settle = pos 0;
}

abbrev turned : Variables
turned = (codes "a", codes "2") ∷ (codes "b", codes "1") ∷ []

turned_b : value request.vars (codes "b") ≡ value turned (codes "b")
unfolding value eq_text
turned_b = refl

turned-value : (name : Text) → value request.vars name ≡ value turned name
unfolding value
turned-value name = elim (Bool-cases (eq_text (codes "b") name)) [
  | inl e ↦
      subst (λ n. value request.vars n ≡ value turned n) (eq_text_sound (codes "b") name e) turned_b
  | inr e ↦ rw e refl
]

command-Permᴰ_example :
    command (codes "packer") request dir (codes "/t.hcl")
    ≡ command (codes "packer") (record request { vars = turned }) dir (codes "/t.hcl")
command-Permᴰ_example =
    command-Permᴰ (codes "packer") request turned dir (codes "/t.hcl") (Permᴰ.swap refl refl)
      turned-value

abbrev running : State
running = fresh_state 10 11

abbrev at_pause : State
at_pause = record running { paused = true; label = codes "boot" }

abbrev view : View
view = record {
  dir = dir;
  meta = record {
    id = codes "x";
    template = codes "/t.hcl";
    working_dir = codes "/";
    command = [];
    env = [];
    started_at = 5;
    freeze = none;
    settle = pos 0;
    monitored = true;
  };
  state = running;
  live = err (no_supervisor (codes "gone"));
  condition = ok (record { name = codes "running"; running = true });
  log = none;
  now = 7;
}

abbrev quiet : Look
quiet = record { state = running; listening = true; cancelled = false }

abbrev last : Look
last = record { state = at_pause; listening = true; cancelled = false }

abbrev ls : List Press
ls = (codes "l" ∷ []) ∷ (codes "s" ∷ []) ∷ (codes "ret" ∷ []) ∷ []

ls_typed : all_presses (codes "ls\n") [] ≡ ok ls
unfolding all_presses type_text type_from typed unshifted shifted keys keys_from
ls_typed = refl
