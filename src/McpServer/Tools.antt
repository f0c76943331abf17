-- ===== src/McpServer/Tools.antt =====
-- internal/mcpserver/mcpserver.go: the interface of the service, and the tools over it.
--
-- The service may change what it knows of the world, which is passed on; what the context of a
-- call does is part of that. A tool answers with what it says and its structured output.
use packer_qemu_mcp_server.Prelude.{
  ℤ, not, ◌++◌, List, Option, none, some, Bool, if◌then◌else◌, Text, codes, is_empty, join,
  show_nat, show_int, quote, scale64, Outcome, ok, err,
}
use packer_qemu_mcp_server.BuildState.Roots.{log_path, packer_log_path}
use packer_qemu_mcp_server.Builds.Requests.{Variables, Request}
use packer_qemu_mcp_server.Builds.Reports.{Report, Listing}
use packer_qemu_mcp_server.Builds.Starts.{Build}
use packer_qemu_mcp_server.Builds.Input.{Clicked}
use packer_qemu_mcp_server.McpServer.Arguments.{log_lines, wait_for, button, times, millisecond}
use packer_qemu_mcp_server.McpServer.Descriptions.{listing, describe}

-- `Builds`
pub record Builds {ℓ κ} (S : Type ℓ) (E : Type κ) : Type (ℓ ⊔ κ) where
  pub start : Request → S → S × Outcome E Build
  pub list : Bool → S → S × Outcome E Listing
  pub status : Text → ℤ → S → S × Outcome E Report
  pub wait_for_pause : Text → ℤ → ℤ → S → S × Outcome E Report
  pub screenshot : Text → S → S × Outcome E Text
  pub send_keys : Text → Text → List Text → ℤ → S → S × Option E
  pub click : Text → ℤ → ℤ → Text → ℤ → S → S × Outcome E Clicked
  pub continue : Text → Text → S → S × Option E
  pub abort : Text → ℤ → S → S × Outcome E Report

pub record StartInput : Type 0 where
  pub template : Text
  pub vars : Variables
  pub var_files : List Text
  pub working_dir : Text
  pub env : Variables
  pub extra_args : List Text
  pub debug : Option Bool
  pub monitor_var : Option Text
  pub freeze : Option Bool
  pub settle_ms : ℤ

pub record StartOutput : Type 0 where
  pub build_id : Text
  pub directory : Text
  pub command : List Text
  pub log : Text
  pub packer_log : Text

-- `ScreenshotOutput` and `ActionOutput`
pub record ScreenshotOutput : Type 0 where
  pub build_id : Text
  pub path : Text

pub record ActionOutput : Type 0 where
  pub build_id : Text
  pub done : Text

unfoldable pub request_of : StartInput → Request
request_of input = record {
  template = input.template;
  vars = input.vars;
  working_dir = input.working_dir;
  env = input.env;
  extra_args = input.extra_args;
  var_files = input.var_files;
  debug = input.debug;
  monitor_var = input.monitor_var;
  freeze = input.freeze;
  settle = scale64 millisecond input.settle_ms;
}

unfoldable pub started : Build → Text × StartOutput
started build = (
  codes "Started build " ++ (build.meta.id ++ (codes ": " ++ join build.meta.command (codes " "))),
  record {
    build_id = build.meta.id;
    directory = build.dir.path;
    command = build.meta.command;
    log = log_path build.dir;
    packer_log = packer_log_path build.dir;
  },
)

unfoldable pub described : Report → Text × Report
described report = (describe report, report)

unfoldable pub typed : Text → Text × ActionOutput
typed id = (
  codes "Typed at build " ++ (id ++ codes ". Take a screenshot to see what it did."),
  record { build_id = id; done = codes "typed" },
)

unfoldable pub clicked : Clicked → Text × Clicked
clicked c = (
  codes "Clicked at ("
      ++ (show_int c.x
          ++ (codes ", "
              ++ (show_int c.y
                  ++ (codes ") of a "
                      ++ (show_nat c.screen.width
                          ++ (codes "x"
                              ++ (show_nat c.screen.height
                                  ++ (codes " screen. The screen as it was just before is "
                                      ++ (c.screen.path
                                          ++ codes
                                              "; take another screenshot to see what the click did."))))))))),
  c,
)

unfoldable pub photographed : Text → Text → Text × ScreenshotOutput
photographed id path = (
  codes "Wrote the guest's screen to "
      ++ (path ++ codes "; read it as an image. Each capture is a new file; nothing is replaced."),
  record { build_id = id; path = path },
)

unfoldable pub continued : Text → Text → Text × ActionOutput
continued id until =
    if not (is_empty until)
    then (
      codes "Build "
          ++ (id
              ++ (codes " is running forward to "
                  ++ (quote until ++ codes "; poll status to see it arrive."))),
      record { build_id = id; done = codes "running to " ++ until },
    )
    else (
      codes "Build " ++ (id ++ codes " is running again."),
      record { build_id = id; done = codes "continued" },
    )

unfoldable pub aborted : Text → Report → Text × Report
aborted id report =
    if not report.summary.finished
    then (
      codes "Build "
          ++ (id
              ++ (codes
                    " was told to stop and has not finished yet. Its output directory may still be being deleted; wait before building into it again.\n"
                  ++ describe report)),
      report,
    )
    else (codes "Build " ++ (id ++ (codes " has stopped.\n" ++ describe report)), report)

-- An answer of the service, or what a tool makes of it.
abbrev pub answered {ℓ κ λ' μ} :
    {S : Type ℓ} {E : Type κ} {A : Type λ'} {B : Type μ}
    → (A → B)
    → S × Outcome E A
    → S × Outcome E B
answered f (s, ok a) = (s, ok (f a))
answered f (s, err e) = (s, err e)

abbrev pub acted {ℓ κ μ} :
    {S : Type ℓ} {E : Type κ} {B : Type μ} → B → S × Option E → S × Outcome E B
acted b (s, none) = (s, ok b)
acted b (s, some e) = (s, err e)

-- The tools, which are methods of `tools`.
module _ {ℓ κ} {S : Type ℓ} {E : Type κ} (builds : Builds S E) where
  unfoldable pub start_tool : StartInput → S → S × Outcome E (Text × StartOutput)
  unfolding request_of started
  start_tool input s = answered started (builds.start (request_of input) s)

  unfoldable pub list_tool : Bool → S → S × Outcome E (Text × Listing)
  unfolding listing
  list_tool all s = answered (λ found. (listing found, found)) (builds.list all s)

  unfoldable pub status_tool : Text → ℤ → S → S × Outcome E (Text × Report)
  unfolding described log_lines
  status_tool id lines s = answered described (builds.status id (log_lines lines) s)

  unfoldable pub wait_tool : Text → ℤ → ℤ → S → S × Outcome E (Text × Report)
  unfolding described wait_for log_lines
  wait_tool id seconds lines s =
      answered described (builds.wait_for_pause id (wait_for seconds) (log_lines lines) s)

  unfoldable pub send_keys_tool :
      Text → Text → List Text → ℤ → S → S × Outcome E (Text × ActionOutput)
  unfolding typed
  send_keys_tool id text keys hold_ms s =
      acted (typed id) (builds.send_keys id text keys (scale64 millisecond hold_ms) s)

  unfoldable pub click_tool : Text → ℤ → ℤ → Text → ℤ → S → S × Outcome E (Text × Clicked)
  unfolding clicked button times
  click_tool id x y which asked s =
      answered clicked (builds.click id x y (button which) (times asked) s)

  unfoldable pub screenshot_tool : Text → S → S × Outcome E (Text × ScreenshotOutput)
  unfolding photographed
  screenshot_tool id s = answered (photographed id) (builds.screenshot id s)

  unfoldable pub resume_tool : Text → Text → S → S × Outcome E (Text × ActionOutput)
  unfolding continued
  resume_tool id until s = acted (continued id until) (builds.continue id until s)

  unfoldable pub abort_tool : Text → ℤ → S → S × Outcome E (Text × Report)
  unfolding aborted log_lines
  abort_tool id lines s = answered (aborted id) (builds.abort id (log_lines lines) s)
