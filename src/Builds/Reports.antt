-- ===== src/Builds/Reports.antt =====
-- internal/builds/builds.go: what is told of a build: `observe`, `summarise`, `condition`, `note`,
-- the explanations of errors, `List` and `Status`.
--
-- What is read of one build is a record, `View`: its files, what its supervisor answers to a call
-- of `status`, and what the monitor answers to `query-status`.
use packer_qemu_mcp_server.Prelude.{
  ℕ, ℤ, ◌+◌, ◌-◌, ◌/◌, ◌%◌, ltb, ◌==◌, Bool, true, false, not, ◌&&◌, ◌||◌, List, [], ◌∷◌, ◌++◌,
  Option, none, some, if◌then◌else◌, Text, codes, is_empty, show_nat, Outcome, ok, err,
}
use packer_qemu_mcp_server.BuildState.States.{Frame, Meta, State}
use packer_qemu_mcp_server.BuildState.Roots.{Dir, packer_log_path}
use packer_qemu_mcp_server.BuildState.Logs.{tail}
use packer_qemu_mcp_server.Control.Clients.{CallError, no_supervisor, failed}
use packer_qemu_mcp_server.Qmp.Sessions.{Failure, unavailable, busy, other}

-- The emulator's word for the guest, and whether its processors run.
pub record Condition : Type 0 where
  pub name : Text
  pub running : Bool

pub record View : Type 0 where
  pub dir : Dir
  pub meta : Meta
  pub state : State
  pub live : Outcome CallError State
  pub condition : Outcome Failure Condition
  pub log : Option Text
  pub now : ℕ

pub record Summary : Type 0 where
  pub id : Text
  pub template : Text
  pub started_at : ℕ
  pub elapsed : Text
  pub step : Text
  pub label : Text
  pub paused : Bool
  pub awaiting : Text
  pub frozen : Bool
  pub finished : Bool
  pub finished_at : ℕ
  pub exit_code : ℤ

pub record Report : Type 0 where
  pub summary : Summary
  pub directory : Text
  pub guest : Text
  pub supervised : Bool
  pub screenshot : Text
  pub screenshot_label : Text
  pub packer_log : Text
  pub trail : List Frame
  pub note : Text
  pub log : List Text

pub record Listing : Type 0 where
  pub builds : List Summary
  pub omitted : ℕ

-- `observe`: the supervisor's own account, or the last published, and whether it is there.
unfoldable pub observe : View → State × Bool
observe v = elim v.live [
  | ok live ↦ (live, true)
  | err (no_supervisor e) ↦ (v.state, false)
  | err (failed e) ↦ (v.state, true)
]

-- A duration in nanoseconds rounded to seconds, as `Duration.String` writes it.
unfoldable pub seconds_text : ℕ → Text
seconds_text n =
    if ltb n 60
    then show_nat n ++ codes "s"
    else if ltb n 3600
    then show_nat (n / 60) ++ (codes "m" ++ (show_nat (n % 60) ++ codes "s"))
    else show_nat (n / 3600)
      ++ (codes "h" ++ (show_nat (n / 60 % 60) ++ (codes "m" ++ (show_nat (n % 60) ++ codes "s"))))

unfoldable pub rounded : ℕ → ℕ
rounded n = (n + 500000000) / 1000000000

unfoldable pub between : ℕ → ℕ → Text
unfolding seconds_text rounded
between start end =
    if ltb end start && ltb 0 (rounded (start - end))
    then codes "-" ++ seconds_text (rounded (start - end))
    else seconds_text (rounded (end - start))

-- `elapsed`
unfoldable pub elapsed : ℕ → Meta → State → Text
unfolding between
elapsed now m s =
    if m.started_at == 0
    then []
    else if s.finished && not (s.finished_at == 0)
    then between m.started_at s.finished_at
    else between m.started_at now

unfoldable pub summarise : View → State → Summary
unfolding elapsed
summarise v s = record {
  id = v.dir.id;
  template = v.meta.template;
  started_at = v.meta.started_at;
  elapsed = elapsed v.now v.meta s;
  step = s.step;
  label = s.label;
  paused = s.paused;
  awaiting = s.awaiting;
  frozen = s.frozen;
  finished = s.finished;
  finished_at = s.finished_at;
  exit_code = s.exit_code;
}

abbrev pub stale_after : ℕ
stale_after = 86400000000000

unfoldable pub stale : ℕ → Summary → Bool
stale now s =
    if not s.finished
    then false
    else if s.finished_at == 0
    then ltb stale_after (now - s.started_at)
    else ltb stale_after (now - s.finished_at)

-- `List`, over what is read of the builds that the root lists.
unfoldable pub list_from : Bool → List View → Listing
unfolding observe summarise stale
list_from all [] = record { builds = []; omitted = 0 }
list_from all (v ∷ vs) =
    let rest = list_from all vs in
    let summary = summarise v ((observe v).0) in
    if all || not (stale v.now summary)
    then record rest { builds = summary ∷ rest.builds }
    else record rest { omitted = rest.omitted + 1 }

unfoldable pub list_builds : Bool → Outcome Text (List View) → Outcome Text Listing
unfolding list_from
list_builds all (err e) = err e
list_builds all (ok vs) = ok (list_from all vs)

unfoldable pub absent : View → Text
absent v =
    if v.state.finished
    then codes "gone"
    else if not v.meta.monitored
    then codes "no monitor socket"
    else codes "not started"

-- `condition`
unfoldable pub condition : View → Text
unfolding absent
condition v = elim v.condition [
  | ok status ↦ status.name
  | err (busy e) ↦ codes "busy"
  | err (other e) ↦ codes "unreachable"
  | err (unavailable e) ↦ absent v
]

unfoldable pub unattended : State → Text
unattended s =
    codes "the supervisor is gone; the build (pid "
    ++ (show_nat s.build_pid ++ codes ") is unattended and will not stop at any further pause")

-- `note`
unfoldable pub note : State → Bool → Text
unfolding unattended
note s supervised =
    if supervised || s.finished
    then s.note
    else if is_empty s.note
    then unattended s
    else s.note ++ (codes "; " ++ unattended s)

-- `Status`, behind the opening of the build.
unfoldable pub status : View → ℤ → Report
unfolding observe summarise condition note
status v lines =
    let (s, supervised) = observe v in
    record {
      summary = summarise v s;
      directory = v.dir.path;
      guest = condition v;
      supervised = supervised;
      screenshot = s.screenshot;
      screenshot_label = s.screenshot_label;
      packer_log = packer_log_path v.dir;
      trail = s.trail;
      note = note s supervised;
      log = tail lines v.log;
    }

unfoldable pub unreachable : View → Text → Text
unreachable v method =
    if v.state.finished
    then codes "build " ++ (v.dir.id ++ (codes " has finished; nothing is left to " ++ method))
    else codes "build "
      ++ (v.dir.id
          ++ (codes " cannot be reached: its supervisor is gone, and the build itself (pid "
              ++ (show_nat v.state.build_pid ++ codes ") may still be running")))

-- `tell`, of what the call answered.
unfoldable pub tell : View → Text → Option CallError → Option Text
unfolding unreachable
tell v method none = none
tell v method (some (no_supervisor e)) = some (unreachable v method)
tell v method (some (failed e)) = some e

unfoldable pub explained : View → Text → Text → Text
explained v attempted e =
    if v.state.finished
    then e
      ++ (codes ": build "
          ++ (v.dir.id ++ (codes " has finished, so there is no guest left to " ++ attempted)))
    else if not v.meta.monitored
    then e
      ++ (codes ": build "
          ++ (v.dir.id
              ++ codes
                  " was started without a monitor socket, so its guest cannot be reached at all"))
    else e ++ codes ": the build has not started the virtual machine yet"

-- `monitorError`
unfoldable pub monitor_error : View → Failure → Text → Failure
unfolding explained
monitor_error v (unavailable e) attempted = unavailable (explained v attempted e)
monitor_error v (busy e) attempted = busy e
monitor_error v (other e) attempted = other e

unfoldable pub refused_click : Failure → Failure
refused_click (busy e) = busy e
refused_click (unavailable e) = unavailable e
refused_click (other e) = other (
    e
    ++ codes
        "; a click needs an absolute pointing device, which the default PS/2 mouse is not: add -device qemu-xhci and -device usb-tablet to qemuargs")
