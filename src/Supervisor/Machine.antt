-- ===== src/Supervisor/Machine.antt =====
-- internal/supervisor/supervisor.go: the state of a `Supervisor`, and the small methods that the
-- handlers of pauses and calls are made of.
--
-- What the world answers to the calls of one handler is an argument, `Answers`: an error is the
-- text that `Error()` gives. Each handler makes each of these calls once at most. What the
-- supervisor does to the world is recorded in `done`, the latest first.
use packer_qemu_mcp_server.Prelude.{
  ℕ, ℤ, pos_part, is_positive, Bool, true, false, List, [], ◌∷◌, ◌++◌, Option, none, some,
  if◌then◌else◌, Text, codes, is_empty, trim_prefix, quote,
}
use packer_qemu_mcp_server.BuildState.States.{Frame, State}
use packer_qemu_mcp_server.Guest.Machine.{Guest, freeze, resume}
use packer_qemu_mcp_server.Pause.Found.{Pause, label, matches, ends_boot_command}

pub record Answers : Type 0 where
  -- The monitor's answers to stop, cont and screendump.
  pub stop : Option Text
  pub cont : Option Text
  pub dump : Option Text
  -- The terminal's, to a carriage return and to an interrupt.
  pub enter : Option Text
  pub interrupt : Option Text
  -- The name of the next capture, and the time.
  pub path : Text
  pub now : ℕ

pub data Action : Type 0 where
  settled : ℕ → Action
  stopped : Option Text → Action
  continued : Option Text → Action
  captured : Text → Option Text → Action
  entered : Option Text → Action
  interrupted : Option Text → Action
  published : State → Action

pub record Supervisor : Type 0 where
  pub guest : Guest
  pub freezing : Bool
  pub settle : ℤ
  pub state : State
  pub done : List Action

unfoldable pub act : Action → Supervisor → Supervisor
act a s = record s { done = a ∷ s.done }

unfoldable pub add_note : Text → Text → Text
unfolding trim_prefix
add_note note err = trim_prefix (note ++ (codes "; " ++ err)) (codes "; ")

-- `note`, of an error that is not nil.
unfoldable pub note : Text → Supervisor → Supervisor
note err s = record s { state = record (s.state) { note = add_note s.state.note err } }

-- `publish`, with `PublishState`, which stamps the copy that it writes.
unfoldable pub publish : ℕ → Supervisor → Supervisor
unfolding act
publish now s = act (published (record (s.state) { updated_at = now })) s

unfoldable pub forget_the_screenshot : Supervisor → Supervisor
forget_the_screenshot s = record s {
  state = record (s.state) { screenshot = []; screenshot_label = [] };
}

-- `s.guest.Freeze()`, and then `s.state.Frozen = s.guest.Frozen()`, with what is noted between.
unfoldable pub freeze_guest : Text → Answers → Supervisor → Supervisor
unfolding act note freeze
freeze_guest what o s =
    let (g, err) = freeze o.stop s.guest in
    let t = record (act (stopped o.stop) s) { guest = g } in
    elim err [ none ↦ t | some e ↦ note (what ++ e) t ]

-- `s.guest.Resume()`, which asks the monitor only about a frozen guest.
unfoldable pub resume_guest : Answers → Supervisor → Supervisor
unfolding note resume
resume_guest o s =
    let (g, err) = resume o.cont s.guest in
    let asked = if s.guest.frozen then continued o.cont ∷ s.done else s.done in
    let t = record s { guest = g; done = asked } in
    elim err [ none ↦ t | some e ↦ note (codes "could not resume the guest: " ++ e) t ]

unfoldable pub show_frozen : Supervisor → Supervisor
show_frozen s = record s { state = record (s.state) { frozen = s.guest.frozen } }

abbrev pub picture : Option Text → Text → Text
picture none path = path
picture (some e) path = []

-- A step that the build is run past: its screen goes into the trail, or a gap.
unfoldable pub photograph : Answers → Pause → Supervisor → Supervisor
unfolding act
photograph o found s =
    let frame : Frame = record { label = label found; screenshot = picture o.dump o.path } in
    let t = act (captured o.path o.dump) s in
    record t { state = record (t.state) { trail = t.state.trail ++ (frame ∷ []) } }

-- `pass` answers a pause without stopping at it.
unfoldable pub pass : Answers → Supervisor → Supervisor
unfolding act note publish forget_the_screenshot
pass o s =
    let t = act (entered o.enter) (record s { state = record (s.state) { paused = false } }) in
    elim o.enter [
      | some e ↦ publish o.now (note e t)
      | none ↦ publish o.now (forget_the_screenshot t)
    ]

unfoldable pub stop_awaiting : Supervisor → Supervisor
stop_awaiting s = record s { state = record (s.state) { awaiting = [] } }

-- `runningPast`: whether this pause is one to answer on the way to a named step.
unfoldable pub running_past : Pause → Supervisor → Supervisor × Bool
unfolding note stop_awaiting
running_past found s =
    if is_empty s.state.awaiting
    then (s, false)
    else if matches found s.state.awaiting
    then (stop_awaiting s, false)
    else if ends_boot_command found
    then (
      stop_awaiting
          (note (codes "the boot command ended without reaching " ++ quote s.state.awaiting) s),
      false,
    )
    else (s, true)

-- The grace before the freeze. It is waited for, and changes nothing.
unfoldable pub wait_settle : Supervisor → Supervisor
wait_settle s = record s {
  done = if is_positive s.settle then settled (pos_part s.settle) ∷ s.done else s.done;
}

-- `hold` freezes the guest and photographs it.
unfoldable pub take_hold : Answers → Supervisor → Supervisor
unfolding act note freeze_guest show_frozen forget_the_screenshot wait_settle
take_hold o s =
    let s1 = wait_settle s in
    let s2 = if s1.freezing then freeze_guest (codes "could not freeze the guest: ") o s1 else s1 in
    let s3 = act (captured o.path o.dump) (forget_the_screenshot (show_frozen s2)) in
    elim o.dump [
      | some e ↦ note (codes "could not photograph the guest: " ++ e) s3
      | none ↦ record s3 {
        state = record (s3.state) { screenshot = o.path; screenshot_label = s3.state.label };
      }
    ]
