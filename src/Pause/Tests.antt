-- ===== src/Pause/Tests.antt =====
-- Concrete runs of the scanner, over transcripts of the program's own tests.
use packer_qemu_mcp_server.Prelude.{
  ◌≡◌, refl, true, some, List, [], ◌∷◌, ◌++◌, Text, arith, codes, has_prefix, contains, to_lower,
}
use packer_qemu_mcp_server.Pause.Pattern.{
  eat, some_spaces, group, step_name, then_step, opening, closing, match_here, find_prompt,
}
use packer_qemu_mcp_server.Pause.Found.{
  Pause, after_run, interesting, label, matches, described, description,
}
use packer_qemu_mcp_server.Pause.Scanner.{
  scan_all, scan_loop, truncate, read_match, panicked, scanned, scan,
}
use packer_qemu_mcp_server.Pause.Streams.Feeding.{feed, joined, Fits, feed-joined}
use packer_qemu_mcp_server.Pause.Prompts.{transcript, press_enter, scan-transcript, scan_bare}

abbrev pub download : Pause
download = record { location = after_run; step = codes "StepDownload" }

one_chunk :
    scan [] (codes "==> qemu: Pausing after run of step 'StepDownload'. Press enter")
    ≡ scanned (download ∷ []) (codes " Press enter")
unfolding scan scan_all scan_loop truncate read_match find_prompt match_here opening then_step
    step_name group closing eat some_spaces
one_chunk = refl

no_location : scan [] (codes "Pausing step 'StepDownload'.") ≡ panicked
unfolding scan scan_all scan_loop truncate read_match find_prompt match_here opening then_step
    step_name group closing eat some_spaces
no_location = refl

abbrev second_step : Pause
second_step = record {
  location = after_run;
  step = codes "boot description: \"second step\", command: <enter>";
}

second_step_label : label second_step ≡ codes "second step"
unfolding label
second_step_label = refl

second_step-interesting : interesting second_step ≡ true
unfolding interesting has_prefix to_lower
second_step-interesting = refl

second_step-matches : matches second_step (codes "SECOND") ≡ true
unfolding matches label contains to_lower has_prefix
second_step-matches = refl

abbrev pub cut_here : List Text
cut_here = codes "un of step 'StepDown" ∷ codes "load'. Press" ∷ []

pub cut-Fits : Fits [] (codes "Pausing after r" ∷ cut_here)
unfolding scan_all scan_loop read_match find_prompt match_here opening then_step step_name group
    closing eat some_spaces
cut-Fits = (omega arith, (omega arith, (omega arith, tt)))

feed-joined_example :
    feed [] (codes "Pausing after r" ∷ cut_here)
    ≡ scan [] (joined (codes "Pausing after r" ∷ cut_here))
feed-joined_example = feed-joined [] (codes "Pausing after r") cut_here cut-Fits

scan-transcript_example :
    scan [] (transcript (download ∷ second_step ∷ []))
    ≡ scanned (download ∷ second_step ∷ []) press_enter
unfolding contains has_prefix
scan-transcript_example = scan-transcript download (second_step ∷ []) (refl, (refl, tt))

scan_bare_example :
    scan [] (codes "Pausing step '" ++ (codes "StepDownload" ++ (codes "'." ++ codes " Press")))
    ≡ panicked
unfolding contains has_prefix
scan_bare_example = scan_bare (codes "StepDownload") (codes " Press") refl

second_step_described : described second_step.step ≡ some (codes "second step")
unfolding described eat some_spaces description
second_step_described = refl
