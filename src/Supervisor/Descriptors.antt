-- ===== src/Supervisor/Descriptors.antt =====
-- internal/supervisor/supervisor.go and terminal.go: what `Run` leaves open, on every path.
use packer_qemu_mcp_server.Prelude.{
  ℕ, ◌==◌, ◌≡◌, ◌⊎◌, false, List, [], ◌∷◌, Option, none, some, if◌then◌else◌,
}
use packer_qemu_mcp_server.Supervisor.Loop.{Input}
use packer_qemu_mcp_server.Supervisor.Openings.{
  Handle, log_file, master, slave, process, server, Op, opened, runs, closed, is_over, RunResult,
}

abbrev number : Handle → ℕ
number log_file = 0
number master = 1
number slave = 2
number process = 3
number server = 4

-- What is left of what is open when one is closed, which has to be open.
unfoldable pub without : Handle → List Handle → Option (List Handle)
without h [] = none
without h (x ∷ xs) =
    let rest = without h xs in
    if number x == number h then some xs else elim rest [ none ↦ none | some ys ↦ some (x ∷ ys) ]

-- What is open behind the operations, unless something was closed that was not open.
unfoldable pub balance : List Handle → List Op → Option (List Handle)
unfolding without
balance held [] = some held
balance held (opened h ∷ ops) = balance (h ∷ held) ops
balance held (runs built ∷ ops) = balance (process ∷ held) ops
balance held (closed h ∷ ops) = elim (without h held) [ none ↦ none | some rest ↦ balance rest ops ]

-- What a supervisor that goes on holds.
abbrev pub supervising : List Handle
supervising = server ∷ process ∷ master ∷ log_file ∷ []

-- Everything is closed, or the build is supervised, and nothing has gone wrong.
pub record IsTidy (inputs : List Input) (r : RunResult) : Type 0 where
  pub kept : List Handle
  pub balanced : balance [] r.ops ≡ some kept
  pub kept_open : (kept ≡ []) ⊎ ((kept ≡ supervising) × (is_over inputs ≡ false) × (r.error ≡ none))
