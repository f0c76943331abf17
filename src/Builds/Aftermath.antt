-- ===== src/Builds/Aftermath.antt =====
-- internal/builds/builds.go, internal/buildstate/buildstate.go and internal/supervisor/supervisor.go:
-- what is reported of a build, live and behind its supervisor.
use packer_qemu_mcp_server.Prelude.{ℕ, ℤ, ◌≡◌, refl, Text, Outcome, ok}
use packer_qemu_mcp_server.BuildState.States.{State}
use packer_qemu_mcp_server.BuildState.Files.{Files, with_newline}
use packer_qemu_mcp_server.BuildState.Stores.{no_state}
use packer_qemu_mcp_server.Builds.Reports.{View, Report, status, observe, summarise}

-- A report that shows a supervisor's state.
pub record Shows (t : State) (r : Report) : Type 0 where
  pub paused_shown : r.summary.paused ≡ t.paused
  pub awaiting_shown : r.summary.awaiting ≡ t.awaiting
  pub frozen_shown : r.summary.frozen ≡ t.frozen
  pub label_shown : r.summary.label ≡ t.label
  pub finished_shown : r.summary.finished ≡ t.finished
  pub exit_shown : r.summary.exit_code ≡ t.exit_code
  pub screenshot_shown : r.screenshot ≡ t.screenshot
  pub trail_shown : r.trail ≡ t.trail

pub status_live-Shows :
    (v : View) (t : State) (lines : ℤ) → Shows t (status (record v { live = ok t }) lines)
unfolding status observe summarise
status_live-Shows v t lines = record {
  paused_shown = refl;
  awaiting_shown = refl;
  frozen_shown = refl;
  label_shown = refl;
  finished_shown = refl;
  exit_shown = refl;
  screenshot_shown = refl;
  trail_shown = refl;
}

-- A codec of states that keeps one, whenever it is published, for a reader into the zero state.
abbrev pub Keeps : (State → Outcome Text Text) → (Text → State → State) → State → Type 0
Keeps encode decode t =
    (now : ℕ)
    → (text : Text) × (encode (record t { updated_at = now }) ≡ ok text)
      × (decode (with_newline text) no_state ≡ record t { updated_at = now })
