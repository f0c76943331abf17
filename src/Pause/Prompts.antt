-- ===== src/Pause/Prompts.antt =====
-- internal/pause/pause.go: `Scan` over the transcript of a `-debug` build, as Packer prints it.
use packer_qemu_mcp_server.Prelude.{
  ℕ, ◌≡◌, refl, ap, ◌∙◌, false, List, [], ◌∷◌, ◌++◌, some, Text, codes, arith, contains, has_prefix,
  strip_prefix, All,
}
use packer_qemu_mcp_server.Pause.Pattern.{
  eat, some_spaces, Group, absent, after_run_of, before_cleanup_of, at, group, step_name, then_step,
  opening, closing, Match, match_here, find_prompt,
}
use packer_qemu_mcp_server.Pause.Found.{Location, after_run, before_cleanup, unknown, Pause}
use packer_qemu_mcp_server.Pause.Scanner.{
  panicked, scanned, and_then, read_match, scan_all, scan_loop, scan, truncate, truncated,
}
use packer_qemu_mcp_server.Pause.Streams.Chunks.{scan_all_step}

-- What Packer prints between "Pausing" and "step".
abbrev pub place : Location → Text
place after_run = codes "after run of"
place before_cleanup = codes "before cleanup of"
place unknown = codes "at"

abbrev pub press_enter : Text
press_enter = codes " Press enter to continue. "

-- A prompt, in front of what is printed after it.
abbrev pub printed : Pause → Text → Text
printed p after =
    codes "==> qemu.probe: Pausing "
    ++ (place p.location ++ (codes " step '" ++ (p.step ++ (codes "'." ++ (press_enter ++ after)))))

abbrev pub transcript : List Pause → Text
transcript [] = []
transcript (p ∷ ps) = printed p (transcript ps)

-- The quote and full stop that end a prompt do not stand in the step.
abbrev pub EndsOnce : Pause → Type 0
EndsOnce p = contains p.step (codes "'.") ≡ false

closing_first :
    (s after : Text)
    → contains s (codes "'.") ≡ false
    → closing (s ++ (codes "'." ++ after)) ≡ some (s, after)
unfolding closing contains has_prefix strip_prefix
closing_first [] after h = refl
closing_first (c ∷ []) after h = ground arith
closing_first (c ∷ (d ∷ s)) after h = ground (arith, closing_first (d ∷ s) after)

group_of : Location → Group
group_of after_run = after_run_of
group_of before_cleanup = before_cleanup_of
group_of unknown = at

opening_of : Location → Text → Text
opening_of l name = codes "Pausing " ++ (place l ++ (codes " step '" ++ name))

opening-printed :
    (l : Location) (name : Text) → opening (opening_of l name) ≡ some (group_of l, name)
unfolding opening_of opening then_step step_name some_spaces group eat group_of
opening-printed after_run name = refl
opening-printed before_cleanup name = refl
opening-printed unknown name = refl

skip_lead :
    (l : Location) (name : Text)
    → find_prompt (codes "==> qemu.probe: " ++ opening_of l name) ≡ find_prompt (opening_of l name)
unfolding opening_of find_prompt match_here opening then_step step_name some_spaces group eat
skip_lead l name = refl

skip_press :
    (l : Location) (name : Text)
    → find_prompt (press_enter ++ (codes "==> qemu.probe: " ++ opening_of l name))
      ≡ find_prompt (opening_of l name)
unfolding opening_of find_prompt match_here opening then_step step_name some_spaces group eat
skip_press l name = refl

abbrev found : Pause → Text → Match
unfolding group_of
found p after = record { taken = group_of p.location; name = p.step; rest = press_enter ++ after }

find_prompt_first :
    (c : ℕ) (s : Text) {m : Match} → match_here (c ∷ s) ≡ some m → find_prompt (c ∷ s) ≡ some m
unfolding find_prompt
find_prompt_first c s h = ground arith

find_prompt-opening :
    (p : Pause) (after : Text)
    → EndsOnce p
    → find_prompt (opening_of p.location (p.step ++ (codes "'." ++ (press_enter ++ after))))
      ≡ some (found p after)
unfolding group_of opening_of match_here
find_prompt-opening p after h =
    let name = p.step ++ (codes "'." ++ (press_enter ++ after)) in
    find_prompt_first b'P' (codes "ausing " ++ (place p.location ++ (codes " step '" ++ name)))
      (rw (opening-printed p.location name, closing_first p.step (press_enter ++ after) h) refl)

read_match-group_of :
    (l : Location) (name : Text)
    → read_match (group_of l) name ≡ some (record { location = l; step = name })
unfolding read_match group_of
read_match-group_of after_run name = refl
read_match-group_of before_cleanup name = refl
read_match-group_of unknown name = refl

scan_press : scan_all press_enter ≡ scanned [] press_enter
unfolding scan_all scan_loop find_prompt match_here opening eat
scan_press = refl

-- One prompt found, and the rest of the output scanned.
report_found :
    (s : Text) (p : Pause) (after : Text) {ps : List Pause} {tail : Text}
    → find_prompt s ≡ some (found p after)
    → scan_all (press_enter ++ after) ≡ scanned ps tail
    → scan_all s ≡ scanned (p ∷ ps) tail
unfolding group_of
report_found s p after e rest =
    rw (scan_all_step s, e, read_match-group_of p.location p.step) (ap (and_then p) rest)

-- Behind an answered prompt, all that is still to come is found.
scan_behind :
    (ps : List Pause)
    → All EndsOnce ps
    → scan_all (press_enter ++ transcript ps) ≡ scanned ps press_enter
unfolding opening_of
scan_behind [] h = scan_press
scan_behind (p ∷ ps) (h, hs) =
    report_found (press_enter ++ transcript (p ∷ ps)) p (transcript ps)
      (skip_press p.location (p.step ++ (codes "'." ++ (press_enter ++ transcript ps)))
        ∙ find_prompt-opening p (transcript ps) h)
      (scan_behind ps hs)

-- Every prompt of a transcript is reported, once and in order, with its location and its step, if
-- no step holds the quote and full stop that end a prompt.
pub scan-transcript :
    (p : Pause) (ps : List Pause)
    → All EndsOnce (p ∷ ps)
    → scan [] (transcript (p ∷ ps)) ≡ scanned (p ∷ ps) press_enter
unfolding scan truncate opening_of
scan-transcript p ps (h, hs) = ap truncated (
    report_found (transcript (p ∷ ps)) p (transcript ps)
      (skip_lead p.location (p.step ++ (codes "'." ++ (press_enter ++ transcript ps)))
        ∙ find_prompt-opening p (transcript ps) h)
      (scan_behind ps hs))

opening-bare : (name : Text) → opening (codes "Pausing step '" ++ name) ≡ some (absent, name)
unfolding opening then_step step_name some_spaces group eat
opening-bare name = refl

scan_all_bare :
    (name after : Text)
    → contains name (codes "'.") ≡ false
    → scan_all (codes "Pausing step '" ++ (name ++ (codes "'." ++ after))) ≡ panicked
unfolding read_match match_here
scan_all_bare name after h =
    let s = name ++ (codes "'." ++ after) in
    let m : Match = record { taken = absent; name = name; rest = after } in
    let first : find_prompt (codes "Pausing step '" ++ s) ≡ some m =
      find_prompt_first b'P' (codes "ausing step '" ++ s)
        (rw (opening-bare s, closing_first name after h) refl) in
    rw (scan_all_step (codes "Pausing step '" ++ s), first) refl

-- A prompt that names no place, which the pattern allows, takes the scanner down: a group that
-- took no part in the match is sliced by its index -1.
pub scan_bare :
    (name after : Text)
    → contains name (codes "'.") ≡ false
    → scan [] (codes "Pausing step '" ++ (name ++ (codes "'." ++ after))) ≡ panicked
unfolding scan truncate
scan_bare name after h = ap truncated (scan_all_bare name after h)
