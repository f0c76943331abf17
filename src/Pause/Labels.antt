-- ===== src/Pause/Labels.antt =====
-- internal/pause/pause.go: `Label`, `Matches` and `Interesting`, and the bound and the panic of
-- `Scan`.
use packer_qemu_mcp_server.Prelude.{
  ℕ, ◌-◌, ◌≤◌, ◌≡◌, ◌≢◌, refl, List, [], ◌∷◌, ◌++◌, none, some, Text, codes, arith, length,
  length-drop, lower, All, All-append,
}
use packer_qemu_mcp_server.Pause.Pattern.{eat, some_spaces}
use packer_qemu_mcp_server.Pause.Found.{Pause, description_end, description, described, label}
use packer_qemu_mcp_server.Pause.Scanner.{
  Scanned, scanned, panicked, scan, scan_all, truncate, truncated, max_buffer,
}

length-truncate : (s : Text) → length (truncate s) ≤ max_buffer
unfolding truncate
length-truncate s = ground (arith, length-drop (length s - max_buffer) s)

truncated_tail :
    (r : Scanned) {ps : List Pause} {tail : Text}
    → truncated r ≡ scanned ps tail
    → length tail ≤ max_buffer
unfolding truncate
truncated_tail panicked e = cc
truncated_tail (scanned qs s) {ps} {tail} e = ground (arith, length-truncate s)

-- Whatever the terminal writes, the tail that a scan keeps fits in the buffer.
pub length-scan :
    (tail chunk : Text) {ps : List Pause} {tail' : Text}
    → scan tail chunk ≡ scanned ps tail'
    → length tail' ≤ max_buffer
unfolding scan truncate
length-scan tail chunk e = truncated_tail (scan_all (tail ++ chunk)) e

-- A text without the byte `b`.
abbrev pub Lacks : ℕ → Text → Type 0
Lacks b = All (λ c. c ≢ b)

-- The entry of `boot_steps` that a description and a command make, as Packer names it.
abbrev pub boot_entry : Text → Text → Text
boot_entry d command = codes "boot description: \"" ++ (d ++ (codes "\", command: " ++ command))

description_end-Lacks : (c : ℕ) (s : Text) → c ≢ b'"' → description_end (c ∷ s) ≡ none
unfolding description_end eat lower
description_end-Lacks c s h = ground arith

description-Lacks : (s : Text) → Lacks b'"' s → description s ≡ none
unfolding description
description-Lacks [] h = refl
description-Lacks (c ∷ s) (h, hs) =
    rw (description_end-Lacks c s h, description-Lacks s hs) (ground arith)

description_here :
    (c : ℕ) (s : Text) {r : Text}
    → description s ≡ none
    → description_end (c ∷ s) ≡ some r
    → description (c ∷ s) ≡ some []
unfolding description
description_here c s e e1 = ground arith

description_longer :
    (c : ℕ) (s : Text) {d : Text}
    → c ≢ 10
    → description s ≡ some d
    → description (c ∷ s) ≡ some (c ∷ d)
unfolding description
description_longer c s h e = ground arith

Lacks-append : (b : ℕ) (s t : Text) → Lacks b s → Lacks b t → Lacks b (s ++ t)
Lacks-append b = All-append (λ c. c ≢ b)

description_stops :
    (command : Text) → Lacks b'"' command → description (codes "\", command: " ++ command) ≡ some []
unfolding description_end eat some_spaces
description_stops command h =
    description_here b'"' (codes ", command: " ++ command)
      (description-Lacks (codes ", command: " ++ command)
        (Lacks-append b'"' (codes ", command: ") command (omega arith) h))
      refl

description-append :
    (d command : Text)
    → Lacks 10 d
    → Lacks b'"' command
    → description (d ++ (codes "\", command: " ++ command)) ≡ some d
description-append [] command hd hc = description_stops command hc
description-append (c ∷ d) command (h, hd) hc =
    description_longer c (d ++ (codes "\", command: " ++ command)) h
      (description-append d command hd hc)

-- The label of an entry of `boot_steps` is its description, if that is one line and the keystrokes
-- hold no quotation mark.
pub label-boot_entry :
    (p : Pause) (d command : Text)
    → Lacks 10 d
    → Lacks b'"' command
    → p.step ≡ boot_entry d command
    → label p ≡ d
unfolding label described eat some_spaces
label-boot_entry p d command hd hc e = rw (e, description-append d command hd hc) refl
