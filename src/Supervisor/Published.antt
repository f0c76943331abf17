-- ===== src/Supervisor/Published.antt =====
-- internal/supervisor/supervisor.go: `publish`, against the state that the supervisor holds.
use packer_qemu_mcp_server.Prelude.{
  ℕ, ℤ, ◌≡◌, refl, inl, inr, true, false, List, [], ◌∷◌, Option, none, some, Text, codes, eq_text,
  Option-cases, Bool-cases,
}
use packer_qemu_mcp_server.BuildState.States.{State, Meta}
use packer_qemu_mcp_server.Pause.Found.{Pause}
use packer_qemu_mcp_server.Supervisor.Machine.{
  Answers, Action, published, Supervisor, publish, pass,
}
use packer_qemu_mcp_server.Supervisor.Handlers.{
  reached, let_go, resume, abort, dispatch, finish, instructions,
}
use packer_qemu_mcp_server.Supervisor.Loop.{Input, paused, call, exited, loop, start}
use packer_qemu_mcp_server.Supervisor.Courses.{dull, past, stop, course}
use packer_qemu_mcp_server.Supervisor.Live.{resume_paused, resume_refused}

-- What a reader of state.json finds: the state that was published last.
abbrev pub shown : List Action → Option State
shown [] = none
shown (published t ∷ rest) = some t
shown (_ ∷ rest) = shown rest

-- It is the state that the supervisor holds, but for the time of the writing.
abbrev pub IsShown : Supervisor → Type 0
IsShown s = (now : ℕ) × (shown s.done ≡ some (record (s.state) { updated_at = now }))

publish-IsShown : (now : ℕ) (s : Supervisor) → IsShown (publish now s)
unfolding publish
publish-IsShown now s = (now, refl)

pass-IsShown : (o : Answers) (s : Supervisor) → IsShown (pass o s)
unfolding pass
pass-IsShown o s = elim (Option-cases o.enter) [
  | inl e ↦ rw e (o.now, refl)
  | inr (err, e) ↦ rw e (o.now, refl)
]

reached-IsShown : (o : Answers) (p : Pause) (s : Supervisor) → IsShown (reached o p s)
reached-IsShown o p s = elim (course o p s) [
  | dull h e ↦ rw e (pass-IsShown o _)
  | past h a e ↦ rw e (pass-IsShown o _)
  | stop h a t halts e ↦ rw e (publish-IsShown o.now _)
]

let_go-IsShown : (o : Answers) (until : Text) (s : Supervisor) → IsShown (let_go o until s).0
unfolding let_go
let_go-IsShown o until s = elim (Option-cases o.enter) [
  | inl e ↦ rw e (o.now, refl)
  | inr (err, e) ↦ rw e (o.now, refl)
]

resume-IsShown :
    (o : Answers) (until : Text) (s : Supervisor) → IsShown s → IsShown (resume o until s).0
resume-IsShown o until s h = elim (Bool-cases s.state.paused) [
  | inl e ↦ rw (resume_paused o until s e) (let_go-IsShown o until s)
  | inr e ↦ rw (resume_refused o until s e) h
]

abort-IsShown : (o : Answers) (s : Supervisor) → IsShown (abort o s).0
unfolding abort
abort-IsShown o s = (o.now, refl)

dispatch-IsShown :
    (decode : Text → Option Text) (o : Answers) (method params : Text) (s : Supervisor)
    → IsShown s
    → IsShown (dispatch decode o method params s).0
unfolding dispatch
dispatch-IsShown decode o method params s h =
    elim (Bool-cases (eq_text method (codes "continue"))) [
      | inl e ↦ rw e (resume-IsShown o (instructions decode params) s h)
      | inr e ↦ elim (Bool-cases (eq_text method (codes "abort"))) [
        | inl e1 ↦ rw (e, e1) (abort-IsShown o s)
        | inr e1 ↦ elim (Bool-cases (eq_text method (codes "status"))) [
          | inl e2 ↦ rw (e, e1, e2) h
          | inr e2 ↦ rw (e, e1, e2) h
        ]
      ]
    ]

finish-IsShown : (now : ℕ) (status : ℤ) (s : Supervisor) → IsShown (finish now status s)
unfolding finish
finish-IsShown now status s = (now, refl)

module _ (decode : Text → Option Text) where
  loop-IsShown :
      (s : Supervisor) (inputs : List Input) → IsShown s → IsShown (loop decode s inputs).0
  unfolding loop
  loop-IsShown s [] h = h
  loop-IsShown s (paused o p ∷ rest) h = loop-IsShown (reached o p s) rest (reached-IsShown o p s)
  loop-IsShown s (call o true method params ∷ rest) h = loop-IsShown s rest h
  loop-IsShown s (call o false method params ∷ rest) h =
      loop-IsShown (dispatch decode o method params s).0 rest
        (dispatch-IsShown decode o method params s h)
  loop-IsShown s (exited now status ∷ rest) h = finish-IsShown now status s

-- Between any two inputs, the state that was published last is the state that the supervisor
-- holds, but for the time of the writing.
pub IsShown-loop :
    (decode : Text → Option Text) (meta : Meta) (supervisor_pid build_pid now : ℕ)
    (inputs : List Input)
    → IsShown (loop decode (start meta supervisor_pid build_pid now) inputs).0
unfolding start
IsShown-loop decode meta supervisor_pid build_pid now inputs =
    loop-IsShown decode (start meta supervisor_pid build_pid now) inputs (now, refl)
