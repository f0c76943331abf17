-- ===== src/Supervisor/Queue.antt =====
-- internal/supervisor/supervisor.go: `enqueue`, which hands a request of the control socket to the
-- goroutine that owns the build's state, and `expired`.
--
-- When what happens to a request happens is given: when the loop takes it, when it asks whether
-- the caller has given up, when it has its reply, and when the build's end is announced. A loop
-- that is busy takes it late or never.
use packer_qemu_mcp_server.Prelude.{
  ℕ, ◌+◌, ltb, leb, Bool, true, not, ◌&&◌, List, [], ◌∷◌, ◌++◌, Option, none, some, if◌then◌else◌,
  Text, codes, Outcome, ok, err,
}
use packer_qemu_mcp_server.Control.Servers.{Handler}
use packer_qemu_mcp_server.Supervisor.Handlers.{Reply, Result, dispatch}
use packer_qemu_mcp_server.Supervisor.Machine.{Answers, Supervisor}
use packer_qemu_mcp_server.Supervisor.Loop.{Input, call, loop}

-- `control.DefaultTimeout` and `callPatience`, in nanoseconds.
abbrev pub control_timeout : ℕ
control_timeout = 10000000000

abbrev pub call_patience : ℕ
call_patience = 5000000000

pub record Passage : Type 0 where
  pub taken : Option ℕ
  pub looked : ℕ
  pub replied : ℕ
  pub stopped : Option ℕ

-- What the first `select` comes to, with the time.
pub data Handed : Type 0 where
  received : ℕ → Handed
  gone : ℕ → Handed
  kept_waiting : ℕ → Handed

-- The deadline of a request, and `expired` at a time.
unfoldable pub deadline : ℕ → ℕ
deadline start = start + call_patience

unfoldable pub expired : ℕ → ℕ → Bool
unfolding deadline
expired start now = ltb (deadline start) now

unfoldable pub not_taken : ℕ → Option ℕ → Handed
unfolding deadline
not_taken start none = kept_waiting (deadline start)
not_taken start (some u) = if leb u (deadline start) then gone u else kept_waiting (deadline start)

-- Nothing takes a request any more once the build's end is announced.
unfoldable pub before_end : ℕ → Option ℕ → Bool
before_end t none = true
before_end t (some u) = leb t u

unfoldable pub hand_over : ℕ → Option ℕ → Option ℕ → Handed
unfolding deadline not_taken before_end
hand_over start none stopped = not_taken start stopped
hand_over start (some t) stopped =
    if leb t (deadline start) && before_end t stopped then received t else not_taken start stopped

-- A request is looked at before it has expired and replied to while the caller waits.
unfoldable pub in_time : ℕ → Passage → ℕ → Bool
unfolding expired
in_time start p t = not (expired start p.looked) && leb p.replied (t + call_patience)

-- The second `select`: a request that has expired gets no reply.
unfoldable pub await_reply : ℕ → Passage → Text → Reply → Handed → Outcome Text Reply × ℕ
await_reply start p method reply (gone u) = (err (codes "the build has finished"), u)
await_reply start p method reply (kept_waiting u) =
    (err (codes "the supervisor is busy with the guest and did not get to " ++ method), u)
await_reply start p method reply (received t) =
    if in_time start p t
    then (ok reply, p.replied)
    else (err (method ++ codes " is taking too long"), t + call_patience)

-- `enqueue`: the answer, and when it is given. `reply` is what the loop replies, if it does.
unfoldable pub enqueue : ℕ → Passage → Text → Reply → Outcome Text Reply × ℕ
unfolding hand_over await_reply
enqueue start p method reply = await_reply start p method reply (hand_over start p.taken p.stopped)

-- What the loop receives of a request.
unfoldable pub inputs_at : ℕ → Passage → Answers → Text → Text → Handed → List Input
inputs_at start p o method params (received t) = call o (expired start p.looked) method params ∷ []
inputs_at start p o method params (gone u) = []
inputs_at start p o method params (kept_waiting u) = []

unfoldable pub inputs_of : ℕ → Passage → Answers → Text → Text → List Input
unfolding hand_over inputs_at
inputs_of start p o method params =
    inputs_at start p o method params (hand_over start p.taken p.stopped)

abbrev pub outcome : Outcome Text Reply → Outcome Text Result
outcome (err e) = err e
outcome (ok (result, none)) = ok result
outcome (ok (result, some e)) = err e

-- `enqueue` as the handler of the control socket, with what the loop makes of the request.
unfoldable pub handle : (Text → Option Text) → Answers → ℕ → Passage → Handler Supervisor Result
unfolding loop inputs_of enqueue dispatch
handle decode o start p method params s = (
  (loop decode s (inputs_of start p o method params)).0,
  outcome (enqueue start p method (dispatch decode o method params s).1).0,
)
