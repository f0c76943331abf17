-- ===== src/Supervisor/Patience.antt =====
-- internal/supervisor/supervisor.go: when a caller is answered, and what an answer says of what was
-- done.
use packer_qemu_mcp_server.Prelude.{
  leb, ℕ, ◌+◌, ◌≤◌, ◌<◌, ◌≡◌, sym, ap, subst, ◌∙◌, ◌⊎◌, inl, inr, arith, true, false, [], ◌∷◌,
  Option, none, some, Text, codes, ◌++◌, Outcome, ok, err, Bool-cases,
}
use packer_qemu_mcp_server.Supervisor.Machine.{Answers, Supervisor}
use packer_qemu_mcp_server.Supervisor.Handlers.{Reply, dispatch}
use packer_qemu_mcp_server.Supervisor.Loop.{call, loop}
use packer_qemu_mcp_server.Supervisor.Queue.{
  call_patience, Passage, Handed, received, gone, kept_waiting, deadline, expired, before_end,
  hand_over, in_time, await_reply, enqueue, inputs_at, inputs_of, outcome, handle,
}

unfoldable time_of : Handed → ℕ
time_of (received t) = t
time_of (gone u) = u
time_of (kept_waiting u) = u

-- An answer to a call, or an error.
unfoldable Answered : Reply → Outcome Text Reply → Type 0
Answered reply o = (o ≡ ok reply) ⊎ ((e : Text) × (o ≡ err e))

await_reply-in_time :
    (start : ℕ) (p : Passage) (method : Text) (reply : Reply) (t : ℕ)
    → in_time start p t ≡ true
    → await_reply start p method reply (received t) ≡ (ok reply, p.replied)
unfolding await_reply
await_reply-in_time start p method reply t e = simp (e)

await_reply-late :
    (start : ℕ) (p : Passage) (method : Text) (reply : Reply) (t : ℕ)
    → in_time start p t ≡ false
    → await_reply start p method reply (received t)
      ≡ (err (method ++ codes " is taking too long"), t + call_patience)
unfolding await_reply
await_reply-late start p method reply t e = simp (e)

hand_over-received :
    (start : ℕ) (taken stopped : Option ℕ) (t : ℕ)
    → taken ≡ some t
    → t ≤ deadline start
    → before_end t stopped ≡ true
    → hand_over start taken stopped ≡ received t
unfolding hand_over
hand_over-received start none stopped t e b h = ground (arith, e)
hand_over-received start (some u) stopped t e b h =
    let same : u ≡ t = ground (arith, e) in
    let early : leb u (deadline start) ≡ true = ground (arith, b, same) in
    let open_yet : before_end u stopped ≡ true =
      subst (λ x. before_end x stopped ≡ true) (sym same) h in
    rw (hand_over, early, open_yet) (ap received same)

expired-looked : (start now : ℕ) → now ≤ deadline start → expired start now ≡ false
unfolding expired
expired-looked start now b = ground arith

too_late :
    (start : ℕ) (p : Passage) (t : ℕ) → t + call_patience < p.replied → in_time start p t ≡ false
unfolding in_time
too_late start p t b = ground arith

in_time-expired :
    (start : ℕ) (p : Passage) (t : ℕ) → in_time start p t ≡ true → expired start p.looked ≡ false
unfolding in_time
in_time-expired start p t e = ground arith

heard :
    (start : ℕ) (p : Passage) (o : Answers) (method params : Text) (reply : Reply) (h : Handed)
    → (await_reply start p method reply h).0 ≡ ok reply
    → inputs_at start p o method params h ≡ call o false method params ∷ []
unfolding await_reply inputs_at
heard start p o method params reply (gone u) e = ground arith
heard start p o method params reply (kept_waiting u) e = ground arith
heard start p o method params reply (received t) e = elim (Bool-cases (in_time start p t)) [
  | inl i ↦ ap (λ b. call o b method params ∷ []) (in_time-expired start p t i)
  | inr i ↦ absurd (cc (sym (ap (λ x. x.0) (await_reply-late start p method reply t i)) ∙ e))
]

-- A call that is taken by its deadline and before the build's end is announced, looked at by it and replied to later than the caller waits
-- is acted on like any other, and its caller is told that it is taking too long.
pub late_call_acts :
    (start : ℕ) (p : Passage) (o : Answers) (method params : Text) (reply : Reply) (t : ℕ)
    → p.taken ≡ some t
    → t ≤ deadline start
    → before_end t p.stopped ≡ true
    → p.looked ≤ deadline start
    → t + call_patience < p.replied
    → ((enqueue start p method reply).0 ≡ err (method ++ codes " is taking too long"))
      × (inputs_of start p o method params ≡ call o false method params ∷ [])
unfolding enqueue inputs_of inputs_at
late_call_acts start p o method params reply t taken by running looked late =
    let h = hand_over-received start p.taken p.stopped t taken by running in
    let e = expired-looked start p.looked looked in
    let w = await_reply-late start p method reply t (too_late start p t late) in
    (
      ap (λ x. (await_reply start p method reply x).0) h ∙ ap (λ x. x.0) w,
      ap (inputs_at start p o method params) h ∙ ap (λ b. call o b method params ∷ []) e,
    )

-- The answer to a call is the loop's reply only if the loop received the call before it had expired.
pub enqueue_hears :
    (start : ℕ) (p : Passage) (o : Answers) (method params : Text) (reply : Reply)
    → (enqueue start p method reply).0 ≡ ok reply
    → inputs_of start p o method params ≡ call o false method params ∷ []
unfolding enqueue inputs_of
enqueue_hears start p o method params reply e =
    heard start p o method params reply (hand_over start p.taken p.stopped) e

-- A call that the loop receives by its deadline, looks at by it, and replies to in time has its
-- handler's answer, and leaves the supervisor as the handler does.
pub handle-in_time :
    (decode : Text → Option Text) (o : Answers) (start t : ℕ) (p : Passage) (method params : Text)
    (s : Supervisor)
    → p.taken ≡ some t
    → t ≤ deadline start
    → before_end t p.stopped ≡ true
    → in_time start p t ≡ true
    → handle decode o start p method params s
      ≡ ((dispatch decode o method params s).0, outcome (ok (dispatch decode o method params s).1))
unfolding handle inputs_of inputs_at enqueue loop
handle-in_time decode o start t p method params s taken by running i =
    let h = hand_over-received start p.taken p.stopped t taken by running in
    let reply = (dispatch decode o method params s).1 in
    let w =
      ap (λ x. (await_reply start p method reply x).0) h
      ∙ ap (λ x. x.0) (await_reply-in_time start p method reply t i) in
    let r =
      ap (inputs_at start p o method params) h
      ∙ ap (λ b. call o b method params ∷ []) (in_time-expired start p t i) in
    λ k. ((loop decode s (r k)).0, outcome (w k))
