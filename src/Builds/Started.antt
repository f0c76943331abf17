-- ===== src/Builds/Started.antt =====
-- internal/builds/builds.go: what `Start` has done when it gives a build.
use packer_qemu_mcp_server.Prelude.{◌≡◌, List, Option, none, some, Text}
use packer_qemu_mcp_server.BuildState.States.{Meta}
use packer_qemu_mcp_server.BuildState.Names.{new_id}
use packer_qemu_mcp_server.BuildState.Safety.{IsSafe}
use packer_qemu_mcp_server.BuildState.Files.{Files}
use packer_qemu_mcp_server.BuildState.Stores.{read_meta}
use packer_qemu_mcp_server.Builds.Requests.{Request}
use packer_qemu_mcp_server.Builds.Launches.{executable, launch, launch_command}
use packer_qemu_mcp_server.Builds.Starts.{Service, StartAnswers, Build, Effects, meta_of}

-- A build that has come out of `Start`: its directory is safe, its metadata is what was asked for
-- and can be read back, and a supervisor was started for it.
pub record IsStarted (s : Service) (r : Request) (o : StartAnswers) (decode : Text → Meta → Meta)
    (template : Text) (build : Build) (effects : Effects) : Type 0 where
  pub safe : IsSafe s.root (new_id template o.stamp o.random) o.system build.dir effects.made
  pub described : build.meta ≡ meta_of s r o template build.dir
  pub written : read_meta decode effects.files ≡ build.meta
  pub supervised :
      (program : Text) × (launch s.executable build.dir o.launching ≡ (effects.launched, none))
      × (effects.launched ≡ some (launch_command program build.dir))

-- What `then_launch` has done when it gives a build.
record IsLaunched (s : Service) (o : StartAnswers) (b build : Build) (made : List Text)
    (x : Files × Option Text) (after : Effects) : Type 0 where
  wrote : x.1 ≡ none
  same : b ≡ build
  made_same : after.made ≡ made
  files_same : after.files ≡ x.0
  launched : launch s.executable b.dir o.launching ≡ (after.launched, none)
