-- ===== src/Main/Tests.antt =====
-- The command line at concrete inputs.
use packer_qemu_mcp_server.Prelude.{
  ◌≡◌, refl, true, [], ◌∷◌, List, Option, none, some, Text, codes, ok, err, eq_text,
}
use packer_qemu_mcp_server.BuildState.Names.{matches_id, all_id, is_id, is_alnum}
use packer_qemu_mcp_server.BuildState.Roots.{Dir, dir_of}
use packer_qemu_mcp_server.Builds.Launches.{
  LaunchAnswers, launch, executable, launch_program, launch_process, launch_command,
  supervise_command,
}
use packer_qemu_mcp_server.Main.Commands.{
  Environment, quiet, parse_flags, read_flag, dashed_flag, named_flag, split_equals, undefined_flag,
  run, run_command, command, serve, root, packer_binary,
}
use packer_qemu_mcp_server.Main.Supervising.{run-launch}

abbrev fine : LaunchAnswers
fine = record {
  executable = ok (codes "/bin/harness");
  log = none;
  null_device = none;
  start = none;
  release = none;
}

abbrev bare : Environment
bare = record { builds_dir = none; packer_bin = some [] }

abbrev ended : Dir → Option Text
ended dir = none

abbrev hung_up : Text → Text → Option Text
hung_up root packer = some (codes "EOF")

abbrev args : List Text
args = codes "supervise" ∷ codes "--dir" ∷ codes "/b/x1" ∷ []

valid : matches_id (codes "x1") ≡ true
unfolding matches_id all_id is_id is_alnum
valid = refl

launched :
    launch [] (dir_of (codes "/b") (codes "x1")) fine ≡ (some (codes "/bin/harness" ∷ args), none)
unfolding launch executable launch_program launch_process launch_command supervise_command dir_of
    eq_text
launched = refl

run-launch_example :
    run ended hung_up bare (codes "dev") args
    ≡ record quiet { error = none; supervised = some (dir_of (codes "/b") (codes "x1")) }
run-launch_example =
    run-launch ended hung_up [] (codes "/b") (codes "x1") fine (codes "/bin/harness") args none bare
      (codes "dev") valid launched

-- The value may stand behind an equals sign, and the last one counts.
last_dir : parse_flags [] (codes "--dir=/a" ∷ codes "-dir" ∷ codes "/b" ∷ []) ≡ ok (codes "/b")
unfolding parse_flags read_flag dashed_flag named_flag split_equals eq_text
last_dir = refl

help_wanted : parse_flags [] (codes "-h" ∷ []) ≡ err (codes "flag: help requested")
unfolding parse_flags read_flag dashed_flag named_flag split_equals undefined_flag eq_text
help_wanted = refl

served_by_default :
    (run ended hung_up bare (codes "dev") []).served ≡ some (codes "/tmp/pk-builds", codes "packer")
unfolding run run_command command supervise_command serve root packer_binary eq_text
served_by_default = refl
