-- ===== src/Supervisor/Calls.antt =====
-- internal/supervisor/supervisor.go: `resume`, `abort` and `dispatch` on every branch.
use packer_qemu_mcp_server.Prelude.{
  ◌≡◌, refl, ◌⊎◌, true, false, List, [], ◌∷◌, none, some, if◌then◌else◌, Text, arith,
}
use packer_qemu_mcp_server.Supervisor.Machine.{
  Answers, Action, entered, continued, published, interrupted, Supervisor, publish, resume_guest,
  show_frozen, act,
}
use packer_qemu_mcp_server.Supervisor.Handlers.{resume, let_go, abort, refreeze}
use packer_qemu_mcp_server.Supervisor.Live.{resume_paused, let_go_failed}

-- What a resume has done, the latest first, when the terminal took the answer: the guest is asked
-- to run, if it was frozen, before the build is answered.
abbrev pub woken : Answers → Supervisor → List Action
woken o s = if s.guest.frozen then continued o.cont ∷ s.done else s.done

-- A build that was let go.
pub record LetGo (o : Answers) (until : Text) (s t : Supervisor) : Type 0 where
  pub going : t.state.paused ≡ false
  pub aimed : t.state.awaiting ≡ until
  pub fresh_trail : t.state.trail ≡ []
  pub no_picture : (t.state.screenshot ≡ []) × (t.state.screenshot_label ≡ [])
  pub order :
      t.done ≡ published (record (t.state) { updated_at = o.now }) ∷ entered none ∷ woken o s
  pub runs : o.cont ≡ none → t.guest.frozen ≡ false

-- A resume at a pause, whose answer the terminal takes: the guest is asked to run before the build
-- is answered; the build is under way to the step that was named, with a trail of its own and
-- without the picture of where it was; and there is no error.
pub resume_lets_go :
    (o : Answers) (until : Text) (s : Supervisor)
    → s.state.paused ≡ true
    → o.enter ≡ none
    → LetGo o until s (resume o until s).0 × ((resume o until s).1 ≡ none)
unfolding let_go
resume_lets_go o until s h e = rw (resume_paused o until s h) (
    rw e (
      record {
        going = refl;
        aimed = ground arith;
        fresh_trail = ground arith;
        no_picture = (refl, refl);
        order = ground arith;
        runs = λ c. ground arith;
      },
      refl,
    ))

-- A resume at a pause whose answer fails: the error is reported, the build still waits, and the
-- guest is frozen if the monitor obeys.
pub resume_fails :
    (o : Answers) (until : Text) (s : Supervisor) {err : Text}
    → s.state.paused ≡ true
    → o.enter ≡ some err
    → let (t, e) = resume o until s in
      (e ≡ some err) × (t.state.paused ≡ true) × (o.stop ≡ none → t.state.frozen ≡ true)
unfolding refreeze publish resume_guest show_frozen act
resume_fails o until s {err} h e =
    rw (resume_paused o until s h, let_go_failed o until s e)
      (refl, ground arith, λ c. ground arith)

-- An abort, on every branch: the build waits for nothing and nobody, the guest is asked to run, if it was
-- frozen, before the build is interrupted, and runs unless the monitor refused; the
-- error is that of the interrupt.
pub record Aborted (o : Answers) (s t : Supervisor) : Type 0 where
  pub going : t.state.paused ≡ false
  pub aimless : t.state.awaiting ≡ []
  pub order :
      t.done
      ≡ interrupted o.interrupt ∷ published (record (t.state) { updated_at = o.now }) ∷ woken o s
  pub runs : (o.cont ≡ none) ⊎ (s.guest.frozen ≡ false) → t.guest.frozen ≡ false

pub abort_lem :
    (o : Answers) (s : Supervisor) → Aborted o s (abort o s).0 × ((abort o s).1 ≡ o.interrupt)
unfolding abort
abort_lem o s = (
  record { going = refl; aimless = ground arith; order = ground arith; runs = λ c. ground arith },
  refl,
)

-- A build that asked for no freezing: a resume whose answer fails has its guest stopped all the
-- same, and shows the build as under way to the step that was named while it waits at its pause.
pub resume_fails_freezing :
    (o : Answers) (until : Text) (s : Supervisor) {err : Text}
    → s.state.paused ≡ true
    → s.freezing ≡ false
    → o.enter ≡ some err
    → o.stop ≡ none
    → let t = (resume o until s).0 in
      (t.guest.frozen ≡ true) × (t.state.paused ≡ true) × (t.state.awaiting ≡ until)
unfolding refreeze publish resume_guest show_frozen act
resume_fails_freezing o until s {err} h f e c =
    rw (resume_paused o until s h, let_go_failed o until s e)
      (ground arith, ground arith, ground arith)
