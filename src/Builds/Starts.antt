-- ===== src/Builds/Starts.antt =====
-- internal/builds/builds.go: `Start`, which composes the directory, its metadata, the launcher and
-- the wait for the supervisor.
--
-- What the world answers is a record. The codec of JSON is a function.
use packer_qemu_mcp_server.Prelude.{
  ℕ, Bool, not, List, [], ◌++◌, Option, none, some, Text, codes, is_empty, Outcome, ok, err,
}
use packer_qemu_mcp_server.BuildState.States.{Meta}
use packer_qemu_mcp_server.BuildState.Names.{new_id}
use packer_qemu_mcp_server.BuildState.Roots.{Dir, System, create}
use packer_qemu_mcp_server.BuildState.Stores.{meta_file}
use packer_qemu_mcp_server.BuildState.Files.{Files, Writes, write_json}
use packer_qemu_mcp_server.Builds.Requests.{Request, command, working_directory, monitor_variable}
use packer_qemu_mcp_server.Builds.Launches.{LaunchAnswers, launch}
use packer_qemu_mcp_server.Builds.Reports.{View}
use packer_qemu_mcp_server.Builds.Waits.{await_startup}

-- The service: the root of its builds, and the program that it runs for them.
pub record Service : Type 0 where
  pub root : Text
  pub packer : Text
  pub executable : Text

pub record StartAnswers : Type 0 where
  -- `filepath.Abs` and `os.Stat` of the template, and `filepath.Dir`.
  pub absolute : Outcome Text Text
  pub stat : Option Text
  pub parent : Text → Text
  -- The clock, as `NewID` formats it and as `StartedAt` has it, and the random bytes.
  pub stamp : Text
  pub now : ℕ
  pub random : List ℕ
  pub system : System
  -- What becomes of the writing of meta.json, and what is left of it if it fails.
  pub writes : Writes
  pub partial : Text
  pub launching : LaunchAnswers
  -- The looks of `awaitStartup`, and what is read behind them.
  pub up : List Bool
  pub over : List Bool
  pub view : View
  pub packer_log : Option Text

pub record Build : Type 0 where
  pub meta : Meta
  pub dir : Dir

-- What `Start` leaves behind: the directories that it made, the files of the build's directory,
-- and the command of the supervisor that it started.
pub record Effects : Type 0 where
  pub made : List Text
  pub files : Files
  pub launched : Option (List Text)

-- The files of a directory that has just been made.
abbrev pub no_files : Files
no_files name = none

unfoldable pub meta_of : Service → Request → StartAnswers → Text → Dir → Meta
unfolding command working_directory monitor_variable
meta_of s r o template dir = record {
  id = dir.id;
  template = template;
  working_dir = working_directory o.parent r template;
  command = command s.packer r dir template;
  env = r.env;
  started_at = o.now;
  freeze = r.freeze;
  settle = r.settle;
  monitored = not (is_empty (monitor_variable r));
}

-- Behind the launch: what it started, and its error.
unfoldable pub then_await :
    StartAnswers → Build → Effects → Option Text → Outcome Text Build × Effects
unfolding await_startup
then_await o build effects (some e) = (err e, effects)
then_await o build effects none = elim (await_startup o.up o.over o.view o.packer_log) [
  | some e ↦ (err e, effects)
  | none ↦ (ok build, effects)
]

-- Behind the writing of the metadata: the files, and its error.
unfoldable pub then_launch :
    Service → StartAnswers → Build → List Text → Files × Option Text → Outcome Text Build × Effects
unfolding launch then_await
then_launch s o build made (files, some e) =
    (err e, record { made = made; files = files; launched = none })
then_launch s o build made (files, none) =
    let (launched, error) = launch s.executable build.dir o.launching in
    then_await o build (record { made = made; files = files; launched = launched }) error

-- Behind `Create`: the directory or its error, and what was made.
unfoldable pub then_write :
    Service
    → Request
    → StartAnswers
    → (Meta → Outcome Text Text)
    → Text
    → Outcome Text Dir × List Text
    → Outcome Text Build × Effects
unfolding meta_of write_json then_launch
then_write s r o encode template (err e, made) =
    (err e, record { made = made; files = no_files; launched = none })
then_write s r o encode template (ok dir, made) =
    let meta = meta_of s r o template dir in
    then_launch s o (record { meta = meta; dir = dir }) made
      (write_json meta_file (encode meta) o.writes o.partial no_files)

abbrev pub nothing_made : Effects
nothing_made = record { made = []; files = no_files; launched = none }

-- `Start`
unfoldable pub start :
    Service → Request → StartAnswers → (Meta → Outcome Text Text) → Outcome Text Build × Effects
unfolding create new_id then_write
start s r o encode = elim o.absolute [
  | err e ↦ (err (codes "resolving the template path: " ++ e), nothing_made)
  | ok template ↦ elim o.stat [
    | some e ↦
        (err (codes "cannot read the template " ++ (template ++ (codes ": " ++ e))), nothing_made)
    | none ↦
        then_write s r o encode template (create s.root (new_id template o.stamp o.random) o.system)
  ]
]
