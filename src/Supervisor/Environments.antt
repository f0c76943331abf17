-- ===== src/Supervisor/Environments.antt =====
-- internal/supervisor/supervisor.go: `command`, with the environment that a build runs in.
--
-- The package os/exec runs a command with the last of the entries of one name.
use packer_qemu_mcp_server.Prelude.{
  List, [], ◌∷◌, ◌++◌, Option, none, some, Text, codes, map, strip_prefix,
}
use packer_qemu_mcp_server.Builds.Requests.{Variables}
use packer_qemu_mcp_server.BuildState.States.{Meta}
use packer_qemu_mcp_server.BuildState.Roots.{Dir, packer_log_path}

unfoldable pub entry : Text × Text → Text
entry (name, value) = name ++ (codes "=" ++ value)

-- The variables that the harness depends on.
unfoldable pub harness : Dir → Variables
unfolding packer_log_path
harness dir =
    (codes "PACKER_NO_COLOR", codes "1")
    ∷ (codes "PACKER_LOG", codes "1")
    ∷ (codes "PACKER_LOG_PATH", packer_log_path dir)
    ∷ []

-- The environment of the build: that of the supervisor, the harness's variables, and those of the
-- request, in the order in which the map gives them.
unfoldable pub environment : List Text → Dir → Variables → List Text
unfolding entry harness
environment own dir env = own ++ (map entry (harness dir) ++ map entry env)

-- An `exec.Cmd`.
pub record Command : Type 0 where
  pub name : Text
  pub arguments : List Text
  pub working_dir : Text
  pub env : List Text

-- `command`, of the words of a build's command line.
unfoldable pub command : List Text → Dir → Meta → Text → List Text → Command
unfolding environment
command own dir meta name arguments = record {
  name = name;
  arguments = arguments;
  working_dir = meta.working_dir;
  env = environment own dir meta.env;
}

abbrev pub later : Option Text → Option Text → Option Text
later first none = first
later first (some v) = some v

-- What a name stands for in a command that is run with these entries.
unfoldable pub effective : Text → List Text → Option Text
unfolding strip_prefix
effective name [] = none
effective name (e ∷ es) = later (strip_prefix e (name ++ codes "=")) (effective name es)
