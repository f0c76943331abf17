-- ===== src/Supervisor/OutputTests.antt =====
-- A build whose terminal announces one pause, cut into three readings, and its environment.
use packer_qemu_mcp_server.Prelude.{
  pos, ◌≡◌, ◌≤◌, refl, false, List, [], ◌∷◌, none, some, Text, codes, length, eq_text,
}
use packer_qemu_mcp_server.Pause.Pattern.{
  eat, some_spaces, group, step_name, then_step, closing, opening, match_here, find_prompt,
}
use packer_qemu_mcp_server.Pause.Scanner.{scanned, read_match, scan_loop, scan_all, scan, truncate}
use packer_qemu_mcp_server.Pause.Streams.Feeding.{joined}
use packer_qemu_mcp_server.Pause.Tests.{cut_here, cut-Fits, download}
use packer_qemu_mcp_server.Supervisor.Loop.{Input, paused, call, loop, start}
use packer_qemu_mcp_server.Supervisor.Answered.{answers}
use packer_qemu_mcp_server.Supervisor.Output.{Reading, read, scan_bytes}
use packer_qemu_mcp_server.Supervisor.Transcripts.{AreChunks, pauses_of, answers-read}
use packer_qemu_mcp_server.Builds.Requests.{Variables}
use packer_qemu_mcp_server.BuildState.Roots.{Dir}
use packer_qemu_mcp_server.Supervisor.Environments.{environment, effective, harness, later}
use packer_qemu_mcp_server.Supervisor.Inherited.{find, effective-environment}
use packer_qemu_mcp_server.Supervisor.Openings.{Opening}
use packer_qemu_mcp_server.Supervisor.Tests.{fine, meta}

abbrev beginning : Text
beginning = codes "Pausing after r"

-- The log takes two bytes of each reading.
abbrev half_logged : Text → Reading
half_logged chunk = record { bytes = chunk; error = none; logged = 2 }

abbrev readings : List Reading
readings =
    half_logged beginning
    ∷ half_logged (codes "un of step 'StepDown")
    ∷ half_logged (codes "load'. Press")
    ∷ []

readings-AreChunks : AreChunks readings (beginning ∷ cut_here)
readings-AreChunks = (
  record { shown = refl; filled = refl; well = refl },
  (
    record { shown = refl; filled = refl; well = refl },
    (record { shown = refl; filled = refl; well = refl }, tt),
  ),
)

cut_found : scan [] (joined (beginning ∷ cut_here)) ≡ scanned (download ∷ []) (codes " Press")
unfolding scan truncate scan_all scan_loop read_match find_prompt match_here opening then_step
    step_name group closing eat some_spaces
cut_found = refl

-- The loop lets the build go on twice.
abbrev inputs : List Input
inputs =
    paused fine download
    ∷ call fine false (codes "continue") []
    ∷ call fine false (codes "continue") []
    ∷ []

inputs_sent : pauses_of inputs ≡ (read [] readings).sent
unfolding read scan_bytes scan truncate scan_all scan_loop read_match find_prompt match_here opening
    then_step step_name group closing eat some_spaces
inputs_sent = refl

answers-read_example :
    answers (loop (λ t. none) (start meta 10 11 5) inputs).0.done ≤ length (download ∷ [])
answers-read_example =
    answers-read (λ t. none) meta 10 11 5 readings beginning cut_here (download ∷ []) []
      (codes " Press") inputs readings-AreChunks cut-Fits cut_found inputs_sent

abbrev dir : Dir
dir = record { path = codes "/b/x"; id = codes "x" }

abbrev own : List Text
own = codes "HOME=/root" ∷ codes "PACKER_LOG=0" ∷ []

abbrev env : Variables
env = (codes "PACKER_KEY_INTERVAL", codes "1s") ∷ (codes "PACKER_LOG", codes "2") ∷ []

env_fresh : eq_text (codes "PACKER_LOG") (codes "PACKER_KEY_INTERVAL") ≡ false
unfolding eq_text
env_fresh = refl

effective-environment_example :
    effective (codes "PACKER_LOG") (environment own dir env)
    ≡ later
        (effective (codes "PACKER_LOG") own)
        (later (find (codes "PACKER_LOG") (harness dir)) (find (codes "PACKER_LOG") env))
effective-environment_example =
    effective-environment own dir env (codes "PACKER_LOG") refl
      (refl, (env_fresh, tt), (refl, tt, tt))

-- A build that starts, but whose control socket cannot be listened on.
abbrev unlistened : Opening
unlistened = record {
  log = none;
  terminal = record { pty = none; command_start = none };
  listening = some (codes "address already in use");
  securing = none;
  answers = fine;
  status = pos 1;
  supervisor_pid = 10;
  build_pid = 11;
  own = [];
}
