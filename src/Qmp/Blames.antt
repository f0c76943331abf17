-- ===== src/Qmp/Blames.antt =====
-- internal/qmp/qmp.go: which error `run` gives, by what `errors.Is` makes of it.
use packer_qemu_mcp_server.Prelude.{
  ℕ, ltb, ◌≡◌, refl, Bool, true, false, not, ◌&&◌, ◌||◌, List, [], ◌∷◌, Option, none, some,
  Option-cases, inl, inr, Bool-cases, Text, Outcome, ok, err,
}
use packer_qemu_mcp_server.Qmp.Commands.{Command}
use packer_qemu_mcp_server.Qmp.Sessions.{
  Failure, unavailable, busy, Reading, message, at_end, broken, Session, decode, await_reply,
  execute, capabilities, greet, greeting_error, then_execute, converse,
}
use packer_qemu_mcp_server.Qmp.Runs.{Acquired, locked, taken, unopened, Dialling, run_dialled, run}

-- `errors.Is`
abbrev pub is_busy : Outcome Failure Text → Bool
is_busy (err (busy e)) = true
is_busy _ = false

abbrev pub is_unavailable : Outcome Failure Text → Bool
is_unavailable (err (unavailable e)) = true
is_unavailable _ = false

-- The lock is not there in time.
abbrev pub is_late : ℕ → Acquired → Bool
is_late deadline taken = true
is_late deadline (unopened e) = false
is_late deadline (locked now) = not (ltb now deadline)

-- The lock is there in time.
abbrev pub is_early : ℕ → Acquired → Bool
is_early deadline taken = false
is_early deadline (unopened e) = false
is_early deadline (locked now) = ltb now deadline

abbrev pub is_some : Option Text → Bool
is_some none = false
is_some (some e) = true

-- The monitor hangs up before it has said anything.
abbrev pub hangs_up : List Reading → Bool
hangs_up [] = true
hangs_up (at_end ∷ rs) = true
hangs_up (broken e ∷ rs) = false
hangs_up (message m ∷ rs) = false

-- Neither busy nor unavailable.
IsPlainResult : Outcome Failure Text → Type 0
IsPlainResult r = (is_busy r ≡ false) × (is_unavailable r ≡ false)

await_reply-IsPlainResult :
    (cmd : Command) (rs : List Reading) → IsPlainResult (await_reply cmd rs).0
unfolding await_reply IsPlainResult
await_reply-IsPlainResult cmd [] = (refl, refl)
await_reply-IsPlainResult cmd (at_end ∷ rs) = (refl, refl)
await_reply-IsPlainResult cmd (broken e ∷ rs) = (refl, refl)
await_reply-IsPlainResult cmd (message m ∷ rs) = elim (Option-cases m.error) [
  | inr (e, he) ↦ rw (await_reply, he) (refl, refl)
  | inl he ↦ elim (Option-cases m.answer) [
    | inr (value, hv) ↦ rw (await_reply, he, hv) (refl, refl)
    | inl hv ↦ rw (await_reply, he, hv) (await_reply-IsPlainResult cmd rs)
  ]
]

execute-IsPlainResult : (cmd : Command) (s : Session) → IsPlainResult (execute cmd s).0
unfolding execute IsPlainResult
execute-IsPlainResult cmd s = elim (Option-cases (s.encode cmd)) [
  | inr (e, he) ↦ rw (execute, he) (refl, refl)
  | inl he ↦ rw (execute, he) (await_reply-IsPlainResult cmd s.incoming)
]

then_execute-IsPlainResult :
    (cmd : Command) (r : Outcome Failure Text × Session)
    → IsPlainResult r.0
    → IsPlainResult (then_execute cmd r).0
unfolding then_execute
then_execute-IsPlainResult cmd (err e, s) h = h
then_execute-IsPlainResult cmd (ok value, s) h = execute-IsPlainResult cmd s

-- What `greet` comes to on the first thing that it reads.
IsGreeted : List Reading → Outcome Failure Text → Type 0
IsGreeted rs r = (is_busy r ≡ false) × (is_unavailable r ≡ hangs_up rs)

abbrev session : List Reading → List Command → (Command → Option Text) → Session
session incoming sent encode = record { incoming = incoming; sent = sent; encode = encode }

conversed :
    (cmd : Command) (rs : List Reading) (sent : List Command) (encode : Command → Option Text)
    → IsGreeted rs (then_execute cmd (greet (session rs sent encode))).0
unfolding IsGreeted IsPlainResult greet decode greeting_error then_execute
conversed cmd [] sent encode = (refl, refl)
conversed cmd (at_end ∷ rs) sent encode = (refl, refl)
conversed cmd (broken e ∷ rs) sent encode = (refl, refl)
conversed cmd (message m ∷ rs) sent encode = elim (Bool-cases m.banner) [
  | inl h ↦
      rw (greet, h)
        (then_execute-IsPlainResult cmd (execute capabilities (session rs sent encode))
          (execute-IsPlainResult capabilities (session rs sent encode)))
  | inr h ↦ rw (greet, h) (refl, refl)
]

converse_blames : (cmd : Command) (s : Session) → IsGreeted s.incoming (converse cmd s).0
unfolding converse
converse_blames cmd s = conversed cmd s.incoming s.sent s.encode

dialled_blames :
    (socket : Text) (d : Dialling) (cmd : Command) (s : Session)
    → (is_busy (run_dialled socket d cmd s).0 ≡ false)
      × (is_unavailable (run_dialled socket d cmd s).0
          ≡ (is_some d.dial || (not (is_some d.limit) && hangs_up s.incoming)))
unfolding run_dialled IsGreeted
dialled_blames socket d cmd s = elim (Option-cases d.dial) [
  | inr (e, he) ↦ rw (run_dialled, he) (refl, refl)
  | inl he ↦ elim (Option-cases d.limit) [
    | inr (e, hl) ↦ rw (run_dialled, he, hl) (refl, refl)
    | inl hl ↦ rw (run_dialled, he, hl) (converse_blames cmd s)
  ]
]

-- `run` says that the monitor is busy exactly when it has the lock no earlier than its deadline, and
-- that the monitor is not available exactly when it has the lock in time and cannot dial, or is
-- hung up on before the greeting: a monitor that another session holds is never reported as one
-- that is not there.
pub run_blames :
    (socket : Text) (deadline : ℕ) (a : Acquired) (d : Dialling) (cmd : Command) (s : Session)
    → (is_busy (run socket deadline a d cmd s).0 ≡ is_late deadline a)
      × (is_unavailable (run socket deadline a d cmd s).0 ≡ (
          is_early deadline a
          && (is_some d.dial || (not (is_some d.limit) && hangs_up s.incoming))))
unfolding run run_dialled
run_blames socket deadline taken d cmd s = (refl, refl)
run_blames socket deadline (unopened e) d cmd s = (refl, refl)
run_blames socket deadline (locked now) d cmd s = elim (Bool-cases (ltb now deadline)) [
  | inr h ↦ rw (h) (refl, refl)
  | inl h ↦ rw (h) (dialled_blames socket d cmd s)
]
