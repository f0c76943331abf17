-- ===== src/Qmp/Talks.antt =====
-- internal/qmp/qmp.go: what a conversation of `greet` and `execute` sends, and what it answers.
use packer_qemu_mcp_server.Prelude.{
  ◌≡◌, ◌⊎◌, inl, inr, refl, arith, true, false, List, [], ◌∷◌, ◌++◌, Option, none, some, Text,
  Outcome, ok, err, All, Option-cases, Bool-cases, ◌∙◌,
}
use packer_qemu_mcp_server.Qmp.Commands.{Command}
use packer_qemu_mcp_server.Qmp.Sessions.{
  Failure, Message, Reading, message, at_end, broken, Session, decode, await_reply, execute,
  capabilities, greet, then_execute, converse,
}

-- An asynchronous event: neither an answer nor an error.
abbrev pub IsEvent : Reading → Type 0
IsEvent (message m) = (m.answer ≡ none) × (m.error ≡ none)
IsEvent at_end = (true ≡ false)
IsEvent (broken e) = (true ≡ false)

-- The message that answers a command with `value`.
abbrev pub Returns : Text → Message → Type 0
Returns value m = (m.answer ≡ some value) × (m.error ≡ none)

await_reply_events :
    (cmd : Command) (es : List Reading) (m : Message) (value : Text) (rs : List Reading)
    → All IsEvent es
    → Returns value m
    → await_reply cmd (es ++ (message m ∷ rs)) ≡ (ok value, rs)
unfolding await_reply
await_reply_events cmd [] m value rs hes hm = ground (arith, hm.0, hm.1)
await_reply_events cmd (message e ∷ es) m value rs hes hm =
    ground (arith, hes.0.0, hes.0.1, await_reply_events cmd es m value rs hes.1 hm)
await_reply_events cmd (at_end ∷ es) m value rs hes hm = ground (arith, hes.0)
await_reply_events cmd (broken e ∷ es) m value rs hes hm = ground (arith, hes.0)

-- Events ahead of the answer are read past, and the answer is the one that is given.
execute_events :
    (cmd : Command) (s : Session) (es : List Reading) (m : Message) (value : Text)
    (rs : List Reading)
    → s.encode cmd ≡ none
    → s.incoming ≡ es ++ (message m ∷ rs)
    → All IsEvent es
    → Returns value m
    → execute cmd s ≡ (ok value, record s { incoming = rs; sent = s.sent ++ (cmd ∷ []) })
unfolding execute
execute_events cmd s es m value rs he hi hes hm =
    rw (execute, he, hi, await_reply_events cmd es m value rs hes hm) refl

-- What QEMU sends to a client that asks one thing: the banner, the answer to the capabilities and
-- the answer to the command, with events in between.
abbrev pub talk :
    Message → List Reading → Message → List Reading → Message → List Reading → List Reading
talk banner es m fs n rs = message banner ∷ (es ++ (message m ∷ (fs ++ (message n ∷ rs))))

-- A monitor that greets and accepts the capabilities answers a command with the value of the first
-- message, behind the answer to the capabilities, that is no event; exactly the capabilities and
-- the command are sent, in this order, and what comes behind the answer is left unread.
pub converse-talk :
    (cmd : Command) (encode : Command → Option Text) (banner m n : Message)
    (es fs rs : List Reading) (accepted value : Text)
    → encode capabilities ≡ none
    → encode cmd ≡ none
    → banner.banner ≡ true
    → All IsEvent es
    → Returns accepted m
    → All IsEvent fs
    → Returns value n
    → converse cmd (record { incoming = talk banner es m fs n rs; sent = []; encode = encode })
      ≡ (ok value, record { incoming = rs; sent = capabilities ∷ cmd ∷ []; encode = encode })
unfolding converse greet decode then_execute
converse-talk cmd encode banner m n es fs rs accepted value hc he hb hes hm hfs hn =
    let rest = fs ++ (message n ∷ rs) in
    let s : Session = record { incoming = es ++ (message m ∷ rest); sent = []; encode = encode } in
    let t : Session = record { incoming = rest; sent = capabilities ∷ []; encode = encode } in
    rw
      (
        hb,
        execute_events capabilities s es m accepted rest hc refl hes hm,
        execute_events cmd t fs n value rs he refl hfs hn,
      )
      refl

-- What may have been sent when a conversation is over: a command at most once, behind the
-- capabilities, and by a conversation that gives a value, for certain.
abbrev pub Polite : Command → Outcome Failure Text × Session → Type 0
Polite cmd (ok value, s) = s.sent ≡ capabilities ∷ cmd ∷ []
Polite cmd (err e, s) =
    (s.sent ≡ []) ⊎ (s.sent ≡ capabilities ∷ []) ⊎ (s.sent ≡ capabilities ∷ cmd ∷ [])

abbrev Sends : Command → List Command → Outcome Failure Text × Session → Type 0
Sends cmd sent (ok value, s) = s.sent ≡ sent ++ (cmd ∷ [])
Sends cmd sent (err e, s) = (s.sent ≡ sent) ⊎ (s.sent ≡ sent ++ (cmd ∷ []))

Sends-after :
    (cmd : Command) (s : Session) (r : Outcome Failure Text) (rs : List Reading)
    → Sends cmd s.sent (r, record s { incoming = rs; sent = s.sent ++ (cmd ∷ []) })
Sends-after cmd s (ok value) rs = refl
Sends-after cmd s (err e) rs = inr refl

execute-Sends : (cmd : Command) (s : Session) → Sends cmd s.sent (execute cmd s)
unfolding execute
execute-Sends cmd s = elim (Option-cases (s.encode cmd)) [
  | inl e ↦
      rw (execute, e)
        (Sends-after cmd s ((await_reply cmd s.incoming).0) ((await_reply cmd s.incoming).1))
  | inr (x, e) ↦ rw (execute, e) (inl refl)
]

greet-Sends :
    (incoming : List Reading) (encode : Command → Option Text)
    → Sends capabilities [] (greet (record { incoming = incoming; sent = []; encode = encode }))
unfolding greet decode
greet-Sends [] encode = inl refl
greet-Sends (at_end ∷ rs) encode = inl refl
greet-Sends (broken e ∷ rs) encode = inl refl
greet-Sends (message m ∷ rs) encode = elim (Bool-cases m.banner) [
  | inl e ↦ rw e (execute-Sends capabilities (record { incoming = rs; sent = []; encode = encode }))
  | inr e ↦ rw e (inl refl)
]

Sends-Polite :
    (cmd : Command) (x : Outcome Failure Text × Session) (sent : List Command)
    → sent ≡ capabilities ∷ []
    → Sends cmd sent x
    → Polite cmd x
Sends-Polite cmd (ok value, s) sent e h = ground (arith, e, h)
Sends-Polite cmd (err x, s) sent e (inl h) = inr (inl (h ∙ e))
Sends-Polite cmd (err x, s) sent e (inr h) = inr (inr (rw e at h))

then_execute-Polite :
    (cmd : Command) (x : Outcome Failure Text × Session)
    → Sends capabilities [] x
    → Polite cmd (then_execute cmd x)
unfolding then_execute
then_execute-Polite cmd (ok value, s) h =
    Sends-Polite cmd (execute cmd s) s.sent h (execute-Sends cmd s)
then_execute-Polite cmd (err e, s) (inl h) = inl h
then_execute-Polite cmd (err e, s) (inr h) = inr (inl h)

-- Whatever the monitor says, what is sent is nothing, the capabilities, or the capabilities and
-- then the command once; a conversation that gives a value has sent both.
pub converse-Polite :
    (cmd : Command) (incoming : List Reading) (encode : Command → Option Text)
    → Polite cmd (converse cmd (record { incoming = incoming; sent = []; encode = encode }))
unfolding converse
converse-Polite cmd incoming encode =
    then_execute-Polite cmd (greet (record { incoming = incoming; sent = []; encode = encode }))
      (greet-Sends incoming encode)
