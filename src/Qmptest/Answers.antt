-- ===== src/Qmptest/Answers.antt =====
-- internal/qmptest/qmptest.go and internal/qmp/qmp.go: a client's command against the stand-in.
use packer_qemu_mcp_server.Prelude.{
  ◌≡◌, refl, ap, subst, sym, ◌∙◌, append_assoc, false, List, [], ◌∷◌, ◌++◌, map, Option, none, some,
  suc, Text, codes, or_else, Outcome, ok, err,
}
use packer_qemu_mcp_server.Qmp.Commands.{Command}
use packer_qemu_mcp_server.Qmp.Sessions.{
  Failure, other, Message, message, Session, decode, await_reply, execute, capabilities, greet,
  then_execute, converse,
}
use packer_qemu_mcp_server.Qmptest.Servers.{
  Server, get, connected, record_command, paint, value_of, answer, event_messages, reply_message,
  serve_commands, serve, banner_message,
}

-- What a client is to hear of a command, by what the tests set.
abbrev pub settled : Command → Option (Text × Text) → Option Text → Outcome Failure Text
settled cmd (some (class, desc)) value =
    err (other (cmd.execute ++ (codes " failed: " ++ (class ++ (codes ": " ++ desc)))))
settled cmd none value = ok (or_else value (codes "{}"))

abbrev pub heard : Server → Command → Outcome Failure Text
heard s cmd = settled cmd (get s.failures cmd.execute) (value_of s cmd.execute)

-- A connection over which the messages come.
abbrev pub connection : List Message → Session
connection messages = record { incoming = map message messages; sent = []; encode = λ cmd. none }

await_reply-reply_message :
    (cmd : Command) (failure : Option (Text × Text)) (value : Option Text) (rest : List Message)
    → await_reply cmd (map message (reply_message failure value ∷ rest))
      ≡ (settled cmd failure value, map message rest)
unfolding await_reply
await_reply-reply_message cmd (some (class, desc)) value rest = refl
await_reply-reply_message cmd none (some value) rest = refl
await_reply-reply_message cmd none none rest = refl

await_reply-event_messages :
    (cmd : Command) (event : Option Text) (rest : List Message)
    → await_reply cmd (map message (event_messages event ++ rest))
      ≡ await_reply cmd (map message rest)
unfolding await_reply
await_reply-event_messages cmd none rest = refl
await_reply-event_messages cmd (some event) rest = refl

-- The reply to a command, with an event before it or not.
await_reply-answer :
    (cmd : Command) (s : Server) (rest : List Message)
    → await_reply cmd (map message (answer s cmd.execute ++ rest)) ≡ (heard s cmd, map message rest)
unfolding answer
await_reply-answer cmd s rest =
    let events = event_messages (get s.events cmd.execute) in
    let last = reply_message (get s.failures cmd.execute) (value_of s cmd.execute) in
    ap (λ x. await_reply cmd (map message x)) (append_assoc events (last ∷ []) rest)
    ∙ await_reply-event_messages cmd (get s.events cmd.execute) (last ∷ rest)
    ∙ await_reply-reply_message cmd (get s.failures cmd.execute) (value_of s cmd.execute) rest

-- The state in which a command is answered.
abbrev pub asked : Command → Server → Server
asked cmd s = paint cmd (record_command cmd s)

execute-answer :
    (cmd : Command) (s : Server) (rest : List Message) (sent : List Command)
    → execute cmd (record (connection (answer s cmd.execute ++ rest)) { sent = sent })
      ≡ (heard s cmd, record (connection rest) { sent = sent ++ (cmd ∷ []) })
unfolding execute
execute-answer cmd s rest sent =
    ap (λ x. (x.0, record (connection rest) { incoming = x.1; sent = sent ++ (cmd ∷ []) }))
      (await_reply-answer cmd s rest)

-- The connection over which a stand-in greets a client and answers two commands.
abbrev greeted : Command → Server → Server → List Message
greeted cmd t u = banner_message ∷ answer t capabilities.execute ++ (answer u cmd.execute ++ [])

serve-greeted :
    (cmd : Command) (s : Server)
    → s.silent ≡ false
    → let t = asked capabilities (connected s) in
      let u = asked cmd t in serve s (capabilities ∷ cmd ∷ []) ≡ (u, greeted cmd t u)
unfolding serve serve_commands connected paint record_command
serve-greeted cmd s loud = rw (loud) refl

converse-greeted :
    (cmd : Command) (t u : Server)
    → get t.failures capabilities.execute ≡ none
    → converse cmd (connection (greeted cmd t u))
      ≡ (heard u cmd, record (connection []) { sent = capabilities ∷ cmd ∷ [] })
unfolding converse greet decode then_execute
converse-greeted cmd t u accepted =
    let accepts = execute-answer capabilities t (answer u cmd.execute ++ []) [] in
    let allowed = ap (λ f. settled capabilities f (value_of t capabilities.execute)) accepted in
    ap (then_execute cmd) accepts
    ∙ ap
        (λ r.
          then_execute cmd
            (r, record (connection (answer u cmd.execute ++ [])) { sent = capabilities ∷ [] }))
        allowed
    ∙ execute-answer cmd u [] (capabilities ∷ [])

-- A command of a client that connects to the stand-in, which is not silent and accepts the
-- capabilities, gives what the tests set it to give at that time: the error, the value, or the
-- empty one; events that come before a reply change nothing. What the client has sent is what the
-- stand-in has executed, and one client more has been served.
pub converse-serve :
    (cmd : Command) (s : Server)
    → s.silent ≡ false
    → get s.failures (capabilities.execute) ≡ none
    → let (t, messages) = serve s (capabilities ∷ cmd ∷ []) in
      let (result, after) = converse cmd (connection messages) in
      (result ≡ heard t cmd)
      × (map (λ (c : Command). c.execute) after.sent ≡ capabilities.execute ∷ cmd.execute ∷ [])
      × (t.executed ≡ s.executed ++ (capabilities.execute ∷ cmd.execute ∷ []))
      × (t.connections ≡ suc s.connections)
unfolding connected paint record_command
converse-serve cmd s loud accepted =
    let t = asked capabilities (connected s) in
    let u = asked cmd t in
    let conversed = converse-greeted cmd t u accepted in
    subst
      (λ x.
        ((converse cmd (connection x.1)).0 ≡ heard x.0 cmd)
        × (map (λ (c : Command). c.execute) (converse cmd (connection x.1)).1.sent
            ≡ capabilities.execute ∷ cmd.execute ∷ [])
        × (x.0.executed ≡ s.executed ++ (capabilities.execute ∷ cmd.execute ∷ []))
        × (x.0.connections ≡ suc s.connections))
      (sym (serve-greeted cmd s loud))
      (
        ap (λ x. x.0) conversed,
        ap (λ x. map (λ (c : Command). c.execute) x.1.sent) conversed,
        append_assoc s.executed (capabilities.execute ∷ []) (cmd.execute ∷ []),
        refl,
      )
