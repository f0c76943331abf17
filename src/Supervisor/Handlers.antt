-- ===== src/Supervisor/Handlers.antt =====
-- internal/supervisor/supervisor.go: what the goroutine that owns the build's state does at a
-- pause, at a call, and when the build has exited.
use packer_qemu_mcp_server.Prelude.{
  ℕ, ℤ, Bool, true, false, [], ◌++◌, Option, none, some, if◌then◌else◌, Text, codes, is_empty,
  quote, show_int, eq_text, or_else,
}
use packer_qemu_mcp_server.BuildState.States.{State}
use packer_qemu_mcp_server.Pause.Found.{Pause, label, interesting}
use packer_qemu_mcp_server.Supervisor.Machine.{
  Answers, Supervisor, act, entered, interrupted, publish, forget_the_screenshot, freeze_guest,
  resume_guest, show_frozen, photograph, pass, stop_awaiting, running_past, take_hold,
}

abbrev pub with_pause : Pause → Supervisor → Supervisor
with_pause found s = record s {
  state = record (s.state) { step = found.step; label = label found; note = [] };
}

unfoldable pub go_past : Answers → Pause → Supervisor × Bool → Supervisor
go_past o found (s, true) = pass o (photograph o found s)
go_past o found (s, false) =
    publish o.now (take_hold o (record s { state = record (s.state) { paused = true } }))

-- `reached` handles a pause.
unfoldable pub reached : Answers → Pause → Supervisor → Supervisor
unfolding go_past
reached o found s =
    let t = with_pause found s in
    if interesting found then go_past o found (running_past found t) else pass o t

-- `doing`: what the build is up to, for telling a caller.
unfoldable pub doing : State → Text
doing t =
    if t.finished
    then codes "finished, with exit status " ++ show_int t.exit_code
    else if is_empty t.awaiting
    then (if is_empty t.label
        then codes "running, and has not reached a pause yet"
        else codes "running, last past " ++ quote t.label)
    else codes "running forward to "
      ++ (quote t.awaiting ++ (codes ", last past " ++ quote t.label))

unfoldable pub not_paused : State → Text
not_paused t =
    codes "the build is not paused: it is "
    ++ (doing t
        ++ codes
            ". A step that ends in a wait runs for as long as that wait, and there is nothing to let go of until it reaches its pause")

unfoldable pub refreeze : Answers → Supervisor → Supervisor
unfolding freeze_guest show_frozen
refreeze o s = show_frozen (freeze_guest (codes "could not freeze the guest again: ") o s)

-- The part of `resume` behind its guard.
unfoldable pub let_go : Answers → Text → Supervisor → Supervisor × Option Text
unfolding resume_guest show_frozen refreeze act publish forget_the_screenshot
let_go o until s =
    let s1 = record s { state = record (s.state) { note = []; awaiting = until; trail = [] } } in
    let s2 = act (entered o.enter) (show_frozen (resume_guest o s1)) in
    elim o.enter [
      | some e ↦ (publish o.now (refreeze o s2), some e)
      | none ↦ (
        publish o.now
            (forget_the_screenshot (record s2 { state = record (s2.state) { paused = false } })),
        none,
      )
    ]

-- `resume`: the guest first, and then the build.
unfoldable pub resume : Answers → Text → Supervisor → Supervisor × Option Text
resume o until s = if s.state.paused then let_go o until s else (s, some (not_paused s.state))

unfoldable pub abort : Answers → Supervisor → Supervisor × Option Text
unfolding stop_awaiting resume_guest show_frozen publish act
abort o s =
    let s1 = show_frozen (resume_guest o (stop_awaiting s)) in
    let s2 = publish o.now (record s1 { state = record (s1.state) { paused = false } }) in
    (act (interrupted o.interrupt) s2, o.interrupt)

unfoldable pub finish : ℕ → ℤ → Supervisor → Supervisor
unfolding forget_the_screenshot publish
finish now status s = publish now (record s {
  state = record (s.state) {
    paused = false;
    awaiting = [];
    frozen = false;
    screenshot = [];
    screenshot_label = [];
    finished = true;
    exit_code = status;
    finished_at = now;
  };
})

-- What `dispatch` answers: its result, and its error.
pub data Result : Type 0 where
  nothing : Result
  state_of : State → Result

abbrev pub Reply : Type 0
Reply = Result × Option Text

-- `instructions`, over the decoder of the parameters' JSON: the label that it finds in them, if
-- they can be read.
unfoldable pub instructions : (Text → Option Text) → Text → Text
instructions decode params = if is_empty params then [] else or_else (decode params) []

abbrev pub answer_error : Supervisor × Option Text → Supervisor × Reply
answer_error (s, err) = (s, (nothing, err))

unfoldable pub dispatch :
    (Text → Option Text) → Answers → Text → Text → Supervisor → Supervisor × Reply
dispatch decode o method params s =
    if eq_text method (codes "continue")
    then answer_error (resume o (instructions decode params) s)
    else if eq_text method (codes "abort")
    then answer_error (abort o s)
    else if eq_text method (codes "status")
    then (s, (state_of s.state, none))
    else (s, (nothing, some (codes "unknown method " ++ quote method)))
