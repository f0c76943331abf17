-- ===== src/Supervisor/Terminal.antt =====
-- internal/supervisor/terminal.go: the build's process group, which is interrupted, killed when the
-- grace is over, and waited for, in whatever order these happen.
--
-- The goroutine of `Wait` reaps the process and then closes `done`: two steps. Each `Terminate`
-- that succeeds starts a goroutine that waits for `done` or for the grace.
use packer_qemu_mcp_server.Prelude.{
  ℕ, ℤ, negsuc, zero, suc, Bool, true, false, List, [], ◌∷◌, ◌++◌, Option, none, some,
  if◌then◌else◌, Text, codes,
}

pub data Signal : Type 0 where
  interrupt : Signal
  kill : Signal

-- What `syscall.Kill` answers: nil, ESRCH, or another error.
pub data Answer : Type 0 where
  delivered : Answer
  no_process : Answer
  refused : Text → Answer

pub record Terminal : Type 0 where
  pub reaped : Bool
  pub done : Bool
  -- The goroutines of `Terminate` that still wait.
  pub timers : ℕ
  -- The signals sent, the latest first.
  pub sent : List Signal

unfoldable pub fresh : Terminal
fresh = record { reaped = false; done = false; timers = 0; sent = [] }

abbrev pub kill_error : Answer → Option Text
kill_error delivered = none
kill_error no_process = none
kill_error (refused e) = some (codes "signalling the build: " ++ e)

-- `signal`
unfoldable pub signal : Signal → Answer → Terminal → Terminal × Option Text
signal sig a t = if t.done then (t, none) else (record t { sent = sig ∷ t.sent }, kill_error a)

abbrev pub with_timer : Terminal × Option Text → Terminal × Option Text
with_timer (t, none) = (record t { timers = suc t.timers }, none)
with_timer (t, some e) = (t, some e)

-- `Terminate`
unfoldable pub terminate : Answer → Terminal → Terminal × Option Text
unfolding signal
terminate a t = with_timer (signal interrupt a t)

-- The grace is over for a goroutine of `Terminate`: it kills.
unfoldable pub expire_from : ℕ → Answer → Terminal → Terminal
unfolding signal
expire_from zero a t = t
expire_from (suc n) a t = (signal kill a (record t { timers = n })).0

unfoldable pub expire : Answer → Terminal → Terminal
unfolding expire_from
expire a t = expire_from t.timers a t

-- `done` is closed for a goroutine of `Terminate`: it goes.
unfoldable pub stand_down_from : ℕ → Terminal → Terminal
stand_down_from zero t = t
stand_down_from (suc n) t = if t.done then record t { timers = n } else t

-- `t.command.Wait()` returns.
unfoldable pub reap : Terminal → Terminal
reap t = record t { reaped = true }

-- `close(t.done)`, behind it.
unfoldable pub close : Terminal → Terminal
close t = if t.reaped then record t { done = true } else t

-- `Wait`, of the exit status that the process left, if it ran at all; it returns once `done` is
-- closed.
unfoldable pub wait : Option ℤ → Terminal → Option ℤ
wait status t = if t.done then elim status [ none ↦ some (negsuc 0) | some n ↦ some n ] else none

pub data Event : Type 0 where
  terminated : Answer → Event
  expired : Answer → Event
  stood_down : Event
  reaped_it : Event
  closed_it : Event

unfoldable pub happen : Event → Terminal → Terminal
unfolding terminate expire stand_down_from reap close
happen (terminated a) t = (terminate a t).0
happen (expired a) t = expire a t
happen stood_down t = stand_down_from t.timers t
happen reaped_it t = reap t
happen closed_it t = close t

unfoldable pub live : List Event → Terminal → Terminal
unfolding happen
live [] t = t
live (e ∷ es) t = live es (happen e t)
