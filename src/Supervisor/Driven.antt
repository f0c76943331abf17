-- ===== src/Supervisor/Driven.antt =====
-- internal/supervisor/supervisor.go: the loop does to the build what the machine of `Drives` does.
use packer_qemu_mcp_server.Prelude.{
  ◌≡◌, refl, sym, ap, ◌∙◌, arith, true, false, List, [], ◌∷◌, Option, Option-cases, Bool-cases, inl,
  inr, Text, codes, is_empty, eq_text, map,
}
use packer_qemu_mcp_server.Pause.Found.{Pause, interesting, matches, ends_boot_command}
use packer_qemu_mcp_server.Supervisor.Machine.{
  Answers, Supervisor, pass, photograph, publish, take_hold,
}
use packer_qemu_mcp_server.Supervisor.Handlers.{
  with_pause, reached, resume, let_go, abort, dispatch, finish, instructions,
}
use packer_qemu_mcp_server.Supervisor.Loop.{Input, paused, call, exited, loop}
use packer_qemu_mcp_server.Supervisor.Courses.{Halts, IsAhead, dull, past, stop, course}
use packer_qemu_mcp_server.Supervisor.Live.{resume_paused, resume_refused}
use packer_qemu_mcp_server.Supervisor.Drives.{
  event_of, go, stay, meet, let_on, give_up, obey, drive, presses, drive_of,
}

pass-go : (o : Answers) (s : Supervisor) → drive_of (pass o s) ≡ go o.enter (drive_of s)
unfolding pass
pass-go o s = elim (Option-cases o.enter) [ inl e ↦ rw (e) refl | inr (err, e) ↦ rw (e) refl ]

take_hold-drive :
    (o : Answers) (s : Supervisor) → drive_of (publish o.now (take_hold o s)) ≡ drive_of s
unfolding take_hold publish
take_hold-drive o s = ground arith

meet-stay :
    (enter : Option Text) (p : Pause) (s : Supervisor)
    → interesting p ≡ true
    → ¬ IsAhead p s
    → meet enter p (drive_of s) ≡ stay (drive_of s)
unfolding meet
meet-stay enter p s h a = elim (Bool-cases (is_empty s.state.awaiting)) [
  | inl e ↦ rw (h, e) refl
  | inr e ↦ elim (Bool-cases (matches p s.state.awaiting)) [
    | inl e1 ↦ rw (h, e, e1) refl
    | inr e1 ↦ elim (Bool-cases (ends_boot_command p)) [
      | inl e2 ↦ rw (h, e, e1, e2) refl
      | inr e2 ↦ absurd (a (e, e1, e2))
    ]
  ]
]

Halts-stay : (p : Pause) (s t : Supervisor) → Halts p s t → drive_of t ≡ stay (drive_of s)
Halts-stay p s t h = λ i. record {
  waits = h.halts_paused i;
  goal = h.halts_awaiting i;
  over = h.halts_finished i;
  pressed = presses (h.halts_done i);
}

reached-meet :
    (o : Answers) (p : Pause) (s : Supervisor)
    → drive_of (reached o p s) ≡ meet o.enter p (drive_of s)
unfolding meet photograph
reached-meet o p s = elim (course o p s) [
  | dull h e ↦ ap drive_of e ∙ pass-go o (with_pause p s) ∙ (rw (meet, h) refl)
  | past h (e0, e1, e2) e ↦
      ap drive_of e ∙ pass-go o (photograph o p (with_pause p s)) ∙ (rw (meet, h, e0, e1, e2) refl)
  | stop h a t halts e ↦
      ap drive_of e ∙ take_hold-drive o t ∙ Halts-stay p s t halts ∙ sym (meet-stay o.enter p s h a)
]

let_go-let_on :
    (o : Answers) (until : Text) (s : Supervisor)
    → s.state.paused ≡ true
    → drive_of (let_go o until s).0 ≡ let_on o.enter until (drive_of s)
unfolding let_go let_on
let_go-let_on o until s h = ground arith

resume-let_on :
    (o : Answers) (until : Text) (s : Supervisor)
    → drive_of (resume o until s).0 ≡ let_on o.enter until (drive_of s)
unfolding let_on
resume-let_on o until s = elim (Bool-cases s.state.paused) [
  | inl e ↦ ap (λ x. drive_of x.0) (resume_paused o until s e) ∙ let_go-let_on o until s e
  | inr e ↦ ap (λ x. drive_of x.0) (resume_refused o until s e) ∙ (rw (let_on, e) refl)
]

abort-give_up :
    (o : Answers) (s : Supervisor) → drive_of (abort o s).0 ≡ give_up o.interrupt (drive_of s)
unfolding abort
abort-give_up o s = ground arith

module _ (decode : Text → Option Text) where
  dispatch-obey :
      (o : Answers) (method params : Text) (s : Supervisor)
      → drive_of (dispatch decode o method params s).0
        ≡ obey decode o.enter o.interrupt method params (drive_of s)
  unfolding dispatch obey
  dispatch-obey o method params s = elim (Bool-cases (eq_text method (codes "continue"))) [
    | inl e ↦ rw (e) (resume-let_on o (instructions decode params) s)
    | inr e ↦ elim (Bool-cases (eq_text method (codes "abort"))) [
      | inl e1 ↦ rw (e, e1) (abort-give_up o s)
      | inr e1 ↦ elim (Bool-cases (eq_text method (codes "status"))) [
        | inl e2 ↦ rw (e, e1, e2) refl
        | inr e2 ↦ rw (e, e1, e2) refl
      ]
    ]
  ]

  -- Whatever a supervisor receives, it does to the build, and shows of it, what the machine of
  -- `Drives` does with the events: whether it waits, the step that it runs forward to, whether it
  -- is over, and each carriage return and interrupt in order. The machine is told of the pauses,
  -- the calls and the terminal's own answers, so no answer of the monitor or the disk, and no time,
  -- changes how the build is driven.
  pub drive-loop :
      (s : Supervisor) (inputs : List Input)
      → drive_of (loop decode s inputs).0 ≡ drive decode (drive_of s) (map event_of inputs)
  unfolding loop drive finish
  drive-loop s [] = refl
  drive-loop s (paused o p ∷ rest) =
      drive-loop (reached o p s) rest
      ∙ ap (λ d. drive decode d (map event_of rest)) (reached-meet o p s)
  drive-loop s (call o true method params ∷ rest) = drive-loop s rest
  drive-loop s (call o false method params ∷ rest) =
      drive-loop (dispatch decode o method params s).0 rest
      ∙ ap (λ d. drive decode d (map event_of rest)) (dispatch-obey o method params s)
  drive-loop s (exited now status ∷ rest) = refl
