-- ===== src/Supervisor/Live.antt =====
-- internal/supervisor/supervisor.go: what holds of a supervisor between two inputs.
use packer_qemu_mcp_server.Prelude.{
  ◌≡◌, ◌≢◌, refl, ap, ◌∙◌, ◌⊎◌, Bool, true, false, [], ◌++◌, Option, some, if◌then◌else◌, Text,
  codes, arith, eq_text, Option-cases, Bool-cases, inl, inr,
}
use packer_qemu_mcp_server.Pause.Found.{Pause}
use packer_qemu_mcp_server.Supervisor.Machine.{
  Answers, entered, Supervisor, pass, publish, take_hold, photograph, resume_guest, show_frozen,
  act,
}
use packer_qemu_mcp_server.Supervisor.Handlers.{
  with_pause, reached, resume, abort, dispatch, let_go, refreeze, instructions, not_paused,
}
use packer_qemu_mcp_server.Supervisor.Courses.{dull, past, stop, course}
use packer_qemu_mcp_server.Supervisor.Notes.{add_note-ne-nil}

pub record IsLive (s : Supervisor) : Type 0 where
  pub unfinished : s.state.finished ≡ false
  -- What is published of the guest is what the harness knows of it.
  pub mirrored : s.state.frozen ≡ s.guest.frozen
  -- At a pause the guest is frozen, or the note says what went wrong.
  pub held :
      s.freezing ≡ true → s.state.paused ≡ true → (s.state.frozen ≡ true) ⊎ (s.state.note ≢ [])

pass-IsLive :
    (o : Answers) (s : Supervisor)
    → s.state.finished ≡ false
    → s.state.frozen ≡ s.guest.frozen
    → IsLive (pass o s)
unfolding pass
pass-IsLive o s u m = ground arith

-- A supervisor that holds: what was noted at the freezing stays noted.
holds :
    (o : Answers) (s : Supervisor)
    → s.freezing ≡ true
    → ((take_hold o s).state.frozen ≡ true) ⊎ ((take_hold o s).state.note ≢ [])
unfolding take_hold
holds o s h = elim (Option-cases o.dump) [
  | inr (err, e) ↦
      inr (rw e (add_note-ne-nil _ (codes "could not photograph the guest: " ++ err) (λ q. cc)))
  | inl e ↦ elim (Option-cases o.stop) [
    | inl e1 ↦ inl (ground arith)
    | inr (err, e1) ↦
        inr (
          rw (e, e1, h) (add_note-ne-nil _ (codes "could not freeze the guest: " ++ err) (λ q. cc)))
  ]
]

take_hold-IsLive :
    (o : Answers) (s : Supervisor) → s.state.finished ≡ false → IsLive (take_hold o s)
unfolding take_hold
take_hold-IsLive o s u = record {
  unfinished = ground arith;
  mirrored = ground arith;
  held = λ f p. holds o s (ground arith);
}

stop-IsLive :
    (o : Answers) (s : Supervisor)
    → s.state.finished ≡ false
    → IsLive (publish o.now (take_hold o s))
unfolding publish
stop-IsLive o s u =
    let live = take_hold-IsLive o s u in
    record { unfinished = live.unfinished; mirrored = live.mirrored; held = live.held }

-- A pause keeps a live supervisor live.
pub reached-IsLive : (o : Answers) (p : Pause) (s : Supervisor) → IsLive s → IsLive (reached o p s)
unfolding photograph
reached-IsLive o p s live = elim (course o p s) [
  | dull h e ↦ rw e (pass-IsLive o (with_pause p s) live.unfinished live.mirrored)
  | past h a e ↦
      rw e (pass-IsLive o (photograph o p (with_pause p s)) live.unfinished live.mirrored)
  | stop h a t halts e ↦ rw e (stop-IsLive o t (halts.halts_finished ∙ live.unfinished))
]

refreeze_held :
    (o : Answers) (s : Supervisor)
    → ((refreeze o s).state.frozen ≡ true) ⊎ ((refreeze o s).state.note ≢ [])
unfolding refreeze
refreeze_held o s = elim (Option-cases o.stop) [
  | inl e ↦ inl (ground arith)
  | inr (err, e) ↦
      inr (rw e (add_note-ne-nil _ (codes "could not freeze the guest again: " ++ err) (λ q. cc)))
]

-- The supervisor as it waits for the terminal to take the carriage return.
abbrev pub thawed : Answers → Text → Supervisor → Supervisor
unfolding resume_guest show_frozen act
thawed o until s = act (entered o.enter) (
    show_frozen (
      resume_guest o
        (record s { state = record (s.state) { note = []; awaiting = until; trail = [] } })))

pub let_go_failed :
    (o : Answers) (until : Text) (s : Supervisor) {err : Text}
    → o.enter ≡ some err
    → let_go o until s ≡ (publish o.now (refreeze o (thawed o until s)), some err)
unfolding let_go
let_go_failed o until s e = rw e refl

let_go-IsLive :
    (o : Answers) (until : Text) (s : Supervisor) → IsLive s → IsLive (let_go o until s).0
unfolding let_go
let_go-IsLive o until s live = elim (Option-cases o.enter) [
  | inl e ↦ rw e (record { unfinished = ground arith; mirrored = ground arith; held = λ f h. cc })
  | inr (err, e) ↦ rw (let_go_failed o until s e) (record {
    unfinished = ground arith;
    mirrored = ground arith;
    held = λ f h. refreeze_held o (thawed o until s);
  })
]

abort-IsLive : (o : Answers) (s : Supervisor) → IsLive s → IsLive (abort o s).0
unfolding abort
abort-IsLive o s live = record {
  unfinished = ground arith;
  mirrored = ground arith;
  held = λ f h. cc;
}

pub resume_paused :
    (o : Answers) (until : Text) (s : Supervisor)
    → s.state.paused ≡ true
    → resume o until s ≡ let_go o until s
unfolding resume
resume_paused o until s e =
    ap (λ (b : Bool). if b then let_go o until s else (s, some (not_paused s.state))) e

pub resume_refused :
    (o : Answers) (until : Text) (s : Supervisor)
    → s.state.paused ≡ false
    → resume o until s ≡ (s, some (not_paused s.state))
unfolding resume
resume_refused o until s e =
    ap (λ (b : Bool). if b then let_go o until s else (s, some (not_paused s.state))) e

resume-IsLive :
    (o : Answers) (until : Text) (s : Supervisor) → IsLive s → IsLive (resume o until s).0
unfolding resume
resume-IsLive o until s live = elim (Bool-cases s.state.paused) [
  | inl e ↦ rw (resume_paused o until s e) (let_go-IsLive o until s live)
  | inr e ↦ rw (resume_refused o until s e) live
]

-- A call keeps a live supervisor live, whatever it asks.
pub dispatch-IsLive :
    (decode : Text → Option Text) (o : Answers) (method params : Text) (s : Supervisor)
    → IsLive s
    → IsLive (dispatch decode o method params s).0
unfolding dispatch
dispatch-IsLive decode o method params s live =
    elim (Bool-cases (eq_text method (codes "continue"))) [
      | inl e ↦ rw e (resume-IsLive o (instructions decode params) s live)
      | inr e ↦ elim (Bool-cases (eq_text method (codes "abort"))) [
        | inl e1 ↦ rw (e, e1) (abort-IsLive o s live)
        | inr e1 ↦ elim (Bool-cases (eq_text method (codes "status"))) [
          | inl e2 ↦ rw (e, e1, e2) live
          | inr e2 ↦ rw (e, e1, e2) live
        ]
      ]
    ]
