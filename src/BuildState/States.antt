-- ===== src/BuildState/States.antt =====
-- internal/buildstate/buildstate.go: `Meta`, `State` and `Frame`.
-- A point in time is a number of nanoseconds behind Go's zero time, which is 0; so is a duration.
-- A map of strings is the list of its entries, and a pointer that may be nil an `Option`.
use packer_qemu_mcp_server.Prelude.{ℕ, ℤ, Bool, true, List, Option, none, some, Text}

-- A boot step that the build went past, and the screen as it finished.
pub record Frame : Type 0 where
  pub label : Text
  pub screenshot : Text

pub record Meta : Type 0 where
  pub id : Text
  pub template : Text
  pub working_dir : Text
  pub command : List Text
  pub env : List (Text × Text)
  pub started_at : ℕ
  pub freeze : Option Bool
  pub settle : ℤ
  pub monitored : Bool

-- `Freezing`: an absent field means yes.
abbrev pub or_true : Option Bool → Bool
or_true none = true
or_true (some b) = b

unfoldable pub freezing : Meta → Bool
freezing m = or_true m.freeze

pub record State : Type 0 where
  pub supervisor_pid : ℕ
  pub build_pid : ℕ
  pub step : Text
  pub label : Text
  pub paused : Bool
  pub awaiting : Text
  pub frozen : Bool
  pub screenshot : Text
  pub screenshot_label : Text
  pub trail : List Frame
  pub note : Text
  pub finished : Bool
  pub exit_code : ℤ
  pub finished_at : ℕ
  pub updated_at : ℕ
