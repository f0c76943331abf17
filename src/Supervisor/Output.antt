-- ===== src/Supervisor/Output.antt =====
-- internal/supervisor/supervisor.go: `read`, which copies the build's terminal to its log and sends
-- the pauses that it finds there to the loop, and `drain`.
use packer_qemu_mcp_server.Prelude.{
  ℕ, List, [], ◌∷◌, ◌++◌, Option, none, some, Text, if◌then◌else◌, is_empty, take,
}
use packer_qemu_mcp_server.Pause.Found.{Pause}
use packer_qemu_mcp_server.Pause.Scanner.{panicked, scanned, scan}

-- What one `Read` of the terminal gives: the bytes, and the error. The log takes as many of the
-- bytes as it takes; its error is ignored.
pub record Reading : Type 0 where
  pub bytes : Text
  pub error : Option Text
  pub logged : ℕ

-- How the goroutine goes on: with the scanner's tail, or not, because the terminal gave an error or
-- because `Scan` panicked.
pub data Reader : Type 0 where
  going : Text → Reader
  done : Reader
  crashed : Reader

pub record Output : Type 0 where
  pub sent : List Pause
  pub log : Text
  pub reader : Reader

abbrev pub behind : List Pause → Text → Output → Output
behind ps t out = record out { sent = ps ++ out.sent; log = t ++ out.log }

-- The log and the scanner, for the bytes of one reading: the pauses and how the reader goes on.
unfoldable pub scan_bytes : Text → Text → List Pause × Reader
unfolding scan
scan_bytes tail bytes =
    if is_empty bytes
    then ([], going tail)
    else elim (scan tail bytes) [ panicked ↦ ([], crashed) | scanned ps rest ↦ (ps, going rest) ]

-- `read`, of the readings of the terminal.
unfoldable pub read : Text → List Reading → Output
unfolding scan_bytes
read tail [] = record { sent = []; log = []; reader = going tail }
read tail (r ∷ rs) =
    let (ps, reader) = scan_bytes tail r.bytes in
    behind ps (take r.logged r.bytes) (elim reader [
      | crashed ↦ record { sent = []; log = []; reader = crashed }
      | done ↦ record { sent = []; log = []; reader = done }
      | going rest ↦ elim r.error [
        | some e ↦ record { sent = []; log = []; reader = done }
        | none ↦ read rest rs
      ]
    ])

-- What `drain` receives: the end of the output, a pause, or the end of its grace.
pub data Drained : Type 0 where
  output_done : Drained
  late_pause : Pause → Drained
  out_of_grace : Drained

-- `drain`: what it leaves unreceived. A pause that it receives is dropped.
unfoldable pub drain : List Drained → List Drained
drain [] = []
drain (output_done ∷ rest) = rest
drain (late_pause p ∷ rest) = drain rest
drain (out_of_grace ∷ rest) = rest
