-- ===== src/Supervisor/Answered.antt =====
-- internal/supervisor/supervisor.go: how often the build's terminal is answered.
use packer_qemu_mcp_server.Prelude.{
  ℕ, ℤ, suc, ◌+◌, ◌≤◌, ◌≡◌, refl, ap, inl, inr, Bool, true, false, List, [], ◌∷◌, Option, none,
  Text, codes, eq_text, arith, Option-cases, Bool-cases,
}
use packer_qemu_mcp_server.BuildState.States.{Meta}
use packer_qemu_mcp_server.Pause.Found.{Pause}
use packer_qemu_mcp_server.Supervisor.Machine.{
  Answers, Action, entered, Supervisor, publish, pass, photograph, take_hold,
}
use packer_qemu_mcp_server.Supervisor.Handlers.{
  with_pause, reached, let_go, resume, abort, dispatch, finish, instructions,
}
use packer_qemu_mcp_server.Supervisor.Loop.{Input, paused, call, exited, loop, start}
use packer_qemu_mcp_server.Supervisor.Courses.{dull, past, stop, course}
use packer_qemu_mcp_server.Supervisor.Live.{resume_paused, resume_refused}

-- The carriage returns that the terminal took.
abbrev pub answers : List Action → ℕ
answers [] = 0
answers (entered none ∷ rest) = suc (answers rest)
answers (_ ∷ rest) = answers rest

abbrev pub one_if : Bool → ℕ
one_if true = 1
one_if false = 0

-- The pauses that have been answered, and the one that is waiting.
abbrev pub settled_pauses : Supervisor → ℕ
settled_pauses s = answers s.done + one_if s.state.paused

pass_settles : (o : Answers) (s : Supervisor) → settled_pauses (pass o s) ≤ suc (answers s.done)
unfolding pass
pass_settles o s = elim (Option-cases o.enter) [
  | inl e ↦ rw e (omega arith)
  | inr (err, e) ↦ rw e (omega arith)
]

answers-photograph :
    (o : Answers) (p : Pause) (s : Supervisor) → answers (photograph o p s).done ≡ answers s.done
unfolding photograph
answers-photograph o p s = refl

pub answers-take_hold :
    (o : Answers) (s : Supervisor) → answers (take_hold o s).done ≡ answers s.done
unfolding take_hold
answers-take_hold o s = ground arith

pub paused-take_hold :
    (o : Answers) (s : Supervisor) → (take_hold o s).state.paused ≡ s.state.paused
unfolding take_hold
paused-take_hold o s = ground arith

-- A pause is either answered once at most, or held.
reached_settles :
    (o : Answers) (p : Pause) (s : Supervisor)
    → settled_pauses (reached o p s) ≤ suc (answers s.done)
unfolding publish
reached_settles o p s = elim (course o p s) [
  | dull h e ↦ rw e (pass_settles o (with_pause p s))
  | past h a e ↦ rw e (
      omega (
        arith,
        pass_settles o (photograph o p (with_pause p s)),
        answers-photograph o p (with_pause p s),
      ))
  | stop h a t halts e ↦ rw e (ground (arith, answers-take_hold o t, halts, paused-take_hold o t))
]

let_go_settles :
    (o : Answers) (until : Text) (s : Supervisor)
    → s.state.paused ≡ true
    → settled_pauses (let_go o until s).0 ≤ suc (answers s.done)
unfolding let_go
let_go_settles o until s h = ground arith

resume_settles :
    (o : Answers) (until : Text) (s : Supervisor)
    → settled_pauses (resume o until s).0 ≤ settled_pauses s
resume_settles o until s = elim (Bool-cases s.state.paused) [
  | inl e ↦ rw (resume_paused o until s e) (omega (arith, let_go_settles o until s e, ap one_if e))
  | inr e ↦ rw (resume_refused o until s e) (omega arith)
]

abort_settles : (o : Answers) (s : Supervisor) → settled_pauses (abort o s).0 ≤ settled_pauses s
unfolding abort
abort_settles o s = ground arith

dispatch_settles :
    (decode : Text → Option Text) (o : Answers) (method params : Text) (s : Supervisor)
    → settled_pauses (dispatch decode o method params s).0 ≤ settled_pauses s
unfolding dispatch
dispatch_settles decode o method params s = elim (Bool-cases (eq_text method (codes "continue"))) [
  | inl e ↦ rw e (resume_settles o (instructions decode params) s)
  | inr e ↦ elim (Bool-cases (eq_text method (codes "abort"))) [
    | inl e1 ↦ rw (e, e1) (abort_settles o s)
    | inr e1 ↦ elim (Bool-cases (eq_text method (codes "status"))) [
      | inl e2 ↦ rw (e, e1, e2) (omega arith)
      | inr e2 ↦ rw (e, e1, e2) (omega arith)
    ]
  ]
]

-- The pauses among the inputs.
abbrev pub pauses : List Input → ℕ
pauses [] = 0
pauses (paused o p ∷ rest) = suc (pauses rest)
pauses (_ ∷ rest) = pauses rest

finish_settles :
    (now : ℕ) (status : ℤ) (s : Supervisor) → answers (finish now status s).done ≡ answers s.done
unfolding finish
finish_settles now status s = refl

module _ (decode : Text → Option Text) where
  loop_settles :
      (s : Supervisor) (inputs : List Input)
      → answers (loop decode s inputs).0.done ≤ settled_pauses s + pauses inputs
  unfolding loop
  loop_settles s [] = omega arith
  loop_settles s (paused o p ∷ rest) =
      omega (arith, loop_settles (reached o p s) rest, reached_settles o p s)
  loop_settles s (call o true method params ∷ rest) = loop_settles s rest
  loop_settles s (call o false method params ∷ rest) = omega (
    arith,
    loop_settles (dispatch decode o method params s).0 rest,
    dispatch_settles decode o method params s,
  )
  loop_settles s (exited now status ∷ rest) = omega (arith, finish_settles now status s)

-- No pause is ever answered twice: whatever a supervisor has received, the terminal has taken no
-- more carriage returns than there were pauses.
pub answers-loop :
    (decode : Text → Option Text) (meta : Meta) (supervisor_pid build_pid now : ℕ)
    (inputs : List Input)
    → answers (loop decode (start meta supervisor_pid build_pid now) inputs).0.done ≤ pauses inputs
unfolding start
answers-loop decode meta supervisor_pid build_pid now inputs =
    omega (arith, loop_settles decode (start meta supervisor_pid build_pid now) inputs)
