-- ===== src/Pause/Scanner.antt =====
-- internal/pause/pause.go: `Scanner`, whose state is the unmatched tail of the terminal's output.
use packer_qemu_mcp_server.Prelude.{
  ℕ, zero, suc, ◌-◌, ltb, List, [], ◌∷◌, ◌++◌, Option, none, some, if◌then◌else◌, Text, length,
  drop,
}
use packer_qemu_mcp_server.Pause.Pattern.{Group, absent, find_prompt}
use packer_qemu_mcp_server.Pause.Found.{Pause, location}

abbrev pub max_buffer : ℕ
max_buffer = 8192

-- What a scan comes to: the pauses and the new tail; or a panic, with the run-time's error of a
-- slice whose bounds are -1.
pub data Scanned : Type 0 where
  panicked : Scanned
  scanned : List Pause → Text → Scanned

abbrev pub and_then : Pause → Scanned → Scanned
and_then p panicked = panicked
and_then p (scanned ps tail) = scanned (p ∷ ps) tail

-- One round of the loop. A group that took no part in the match has the index -1, and the code
-- slices the tail by it.
unfoldable pub read_match : Group → Text → Option Pause
unfolding location
read_match absent name = none
read_match g name = some (record { location = location g; step = name })

abbrev pub report : Option Pause → Scanned → Scanned
report none rest = panicked
report (some p) rest = and_then p rest

-- The loop of `Scan`, on fuel: each match takes a byte at least.
unfoldable pub scan_loop : ℕ → Text → Scanned
unfolding read_match
scan_loop zero s = scanned [] s
scan_loop (suc fuel) s = elim (find_prompt s) [
  | none ↦ scanned [] s
  | some m ↦ report (read_match m.taken m.name) (scan_loop fuel m.rest)
]

unfoldable pub scan_all : Text → Scanned
unfolding scan_loop
scan_all s = scan_loop (length s) s

unfoldable pub truncate : Text → Text
truncate s = if ltb max_buffer (length s) then drop (length s - max_buffer) s else s

abbrev pub truncated : Scanned → Scanned
unfolding truncate
truncated panicked = panicked
truncated (scanned ps tail) = scanned ps (truncate tail)

-- `Scan`: the scanner's tail, and the next chunk.
unfoldable pub scan : Text → Text → Scanned
unfolding scan_all truncate
scan tail chunk = truncated (scan_all (tail ++ chunk))
