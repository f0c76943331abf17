-- ===== src/McpServer/Descriptions.antt =====
-- internal/mcpserver/mcpserver.go: what the tools say of a build and of the builds of a host.
use packer_qemu_mcp_server.Prelude.{
  ℕ, ltb, ◌==◌, ◌&&◌, not, List, [], ◌∷◌, ◌++◌, map, length, if◌then◌else◌, Text, codes, is_empty,
  join, show_nat, show_int, quote,
}
use packer_qemu_mcp_server.BuildState.States.{Frame}
use packer_qemu_mcp_server.Builds.Reports.{Summary, Report, Listing}

-- `or`
unfoldable pub or : Text → Text → Text
or value fallback = if is_empty value then fallback else value

-- `plural`
unfoldable pub plural : ℕ → Text → Text
plural count noun = if count == 1 then noun else noun ++ codes "s"

-- `condition`
unfoldable pub condition : Summary → Text
condition s =
    if s.finished
    then codes "finished with exit status " ++ show_int s.exit_code
    else if not (is_empty s.awaiting)
    then codes "running forward to " ++ quote s.awaiting
    else if s.paused && s.frozen
    then codes "waiting at a pause, guest frozen"
    else if s.paused
    then codes "waiting at a pause"
    else codes "running"

-- A line of `listing`.
unfoldable pub summary_line : Summary → Text
unfolding condition
summary_line s =
    s.id
    ++ (codes "  " ++ (s.elapsed ++ (codes "  " ++ (condition s ++ (codes "  " ++ s.template)))))

unfoldable pub builds_lines : List Text → List Text
builds_lines [] = codes "No builds from the last day on this host." ∷ []
builds_lines (line ∷ lines) = line ∷ lines

unfoldable pub omitted_line : ℕ → Text
unfolding plural
omitted_line n =
    codes "("
    ++ (show_nat n
        ++ (codes " older "
            ++ (plural n (codes "build") ++ codes " left out; pass all to see them.)")))

unfoldable pub omitted_lines : ℕ → List Text
omitted_lines n = if ltb 0 n then omitted_line n ∷ [] else []

unfoldable pub listing_lines : Listing → List Text
unfolding summary_line builds_lines omitted_lines
listing_lines found = builds_lines (map summary_line found.builds) ++ omitted_lines found.omitted

-- `listing`
unfoldable pub listing : Listing → Text
unfolding listing_lines
listing found = join (listing_lines found) (codes "\n")

-- A line of the trail.
unfoldable pub frame_line : Frame → Text
unfolding or
frame_line f =
    codes "  " ++ (f.label ++ (codes "  " ++ or f.screenshot (codes "(could not be photographed)")))

unfoldable pub head_lines : Report → List Text
unfolding or condition
head_lines r =
    (codes "Build "
      ++ (r.summary.id
          ++ (codes ", " ++ (r.summary.elapsed ++ (codes " in: " ++ condition r.summary)))))
    ∷ (codes "Last pause: " ++ or r.summary.label (codes "none yet"))
    ∷ (codes "Guest: " ++ r.guest)
    ∷ (codes "Packer's log, where QEMU's messages go: " ++ r.packer_log)
    ∷ []

unfoldable pub capture_lines : Report → List Text
unfolding or
capture_lines r =
    if is_empty r.screenshot
    then []
    else (codes "Capture at this pause ("
        ++ (or r.screenshot_label (codes "unnamed step") ++ (codes "): " ++ r.screenshot)))
      ∷ []

unfoldable pub trail_lines : List Frame → List Text
unfolding plural frame_line
trail_lines [] = []
trail_lines (f ∷ fs) =
    (codes "Passed "
      ++ (show_nat (length (f ∷ fs))
          ++ (codes " boot "
              ++ (plural (length (f ∷ fs)) (codes "step") ++ codes " on the way here:"))))
    ∷ map frame_line (f ∷ fs)

unfoldable pub note_lines : Text → List Text
note_lines note = if is_empty note then [] else (codes "Note: " ++ note) ∷ []

unfoldable pub tail_lines : List Text → List Text
tail_lines [] = []
tail_lines (line ∷ lines) = [] ∷ join (line ∷ lines) (codes "\n") ∷ []

unfoldable pub described : Report → List Text
unfolding head_lines capture_lines trail_lines note_lines tail_lines
described r =
    head_lines r
    ++ (capture_lines r ++ (trail_lines r.trail ++ (note_lines r.note ++ tail_lines r.log)))

-- `describe`
unfoldable pub describe : Report → Text
unfolding described
describe r = join (described r) (codes "\n")
