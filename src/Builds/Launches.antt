-- ===== src/Builds/Launches.antt =====
-- internal/builds/launcher.go: `DetachedLauncher`, which starts a build's supervisor as a session
-- of its own.
use packer_qemu_mcp_server.Prelude.{
  List, [], ◌∷◌, ◌++◌, Option, none, some, if◌then◌else◌, Text, codes, is_empty, Outcome, ok, err,
}
use packer_qemu_mcp_server.BuildState.Roots.{Dir}

-- `SuperviseCommand`
unfoldable pub supervise_command : Text
supervise_command = codes "supervise"

-- What the system answers: the path of this program, the opening of the supervisor's log and of
-- the null device, the start of the process, and its release.
pub record LaunchAnswers : Type 0 where
  pub executable : Outcome Text Text
  pub log : Option Text
  pub null_device : Option Text
  pub start : Option Text
  pub release : Option Text

-- `executable`, of the launcher's `Executable`.
unfoldable pub executable : Text → LaunchAnswers → Outcome Text Text
executable configured o =
    if is_empty configured
    then elim o.executable [
      | err e ↦ err (codes "finding this program to re-run as a supervisor: " ++ e)
      | ok path ↦ ok path
    ]
    else ok configured

unfoldable pub launch_command : Text → Dir → List Text
unfolding supervise_command
launch_command program dir = program ∷ supervise_command ∷ codes "--dir" ∷ dir.path ∷ []

-- `Launch` behind the two files that it opens: the process that it started, if it did, and the
-- error.
unfoldable pub launch_process : List Text → LaunchAnswers → Option (List Text) × Option Text
launch_process command o = elim o.start [
  | some e ↦ (none, some (codes "starting the supervisor: " ++ e))
  | none ↦ (some command, o.release)
]

unfoldable pub launch_program : Text → Dir → LaunchAnswers → Option (List Text) × Option Text
unfolding launch_command launch_process
launch_program program dir o = elim o.log [
  | some e ↦ (none, some (codes "opening the supervisor log: " ++ e))
  | none ↦ elim o.null_device [
    | some e ↦ (none, some e)
    | none ↦ launch_process (launch_command program dir) o
  ]
]

-- `Launch`
unfoldable pub launch : Text → Dir → LaunchAnswers → Option (List Text) × Option Text
unfolding executable launch_program
launch configured dir o = elim (executable configured o) [
  | err e ↦ (none, some e)
  | ok program ↦ launch_program program dir o
]
