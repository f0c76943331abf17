-- ===== src/Qmp/Sessions.antt =====
-- internal/qmp/qmp.go: one connection to the monitor: `greet`, `execute`, and `run` behind the
-- lock.
--
-- The decoder of JSON is a parameter by what it gives: the list of what each `Decode` returns.
-- Behind the end of the list it gives `io.EOF`. What the encoder answers to a command is a
-- function.
use packer_qemu_mcp_server.Prelude.{
  Bool, List, [], ◌∷◌, ◌++◌, Option, none, some, if◌then◌else◌, Text, codes, Outcome, ok, err,
}
use packer_qemu_mcp_server.Qmp.Commands.{Command, no_arguments}

-- An error by what `errors.Is` makes of it, with its text.
pub data Failure : Type 0 where
  unavailable : Text → Failure
  busy : Text → Failure
  other : Text → Failure

unfoldable pub failure_text : Failure → Text
failure_text (unavailable e) = e
failure_text (busy e) = e
failure_text (other e) = e

-- `fmt.Errorf` with `%w`: the text is another, and what `errors.Is` says stays.
unfoldable pub reworded : (Text → Text) → Failure → Failure
reworded f (unavailable e) = unavailable (f e)
reworded f (busy e) = busy (f e)
reworded f (other e) = other (f e)

-- A message with the fields that the client reads.
pub record Message : Type 0 where
  pub banner : Bool
  pub answer : Option Text
  pub error : Option (Text × Text)

pub data Reading : Type 0 where
  message : Message → Reading
  at_end : Reading
  broken : Text → Reading

pub record Session : Type 0 where
  pub incoming : List Reading
  pub sent : List Command
  pub encode : Command → Option Text

unfoldable pub decode : List Reading → Reading × List Reading
decode [] = (at_end, [])
decode (r ∷ rs) = (r, rs)

abbrev pub reading_failed : Command → Text → Failure
reading_failed cmd e = other (codes "reading reply to " ++ (cmd.execute ++ (codes ": " ++ e)))

-- The loop of `execute`: it reads on until something is a reply.
unfoldable pub await_reply : Command → List Reading → Outcome Failure Text × List Reading
await_reply cmd [] = (err (reading_failed cmd (codes "EOF")), [])
await_reply cmd (at_end ∷ rs) = (err (reading_failed cmd (codes "EOF")), rs)
await_reply cmd (broken e ∷ rs) = (err (reading_failed cmd e), rs)
await_reply cmd (message m ∷ rs) =
    let rest = await_reply cmd rs in
    elim m.error [
      | some (class, desc) ↦
          (err (other (cmd.execute ++ (codes " failed: " ++ (class ++ (codes ": " ++ desc))))), rs)
      | none ↦ elim m.answer [ some value ↦ (ok value, rs) | none ↦ rest ]
    ]

unfoldable pub execute : Command → Session → Outcome Failure Text × Session
unfolding await_reply
execute cmd s = elim (s.encode cmd) [
  | some e ↦ (err (other (codes "sending " ++ (cmd.execute ++ (codes ": " ++ e)))), s)
  | none ↦
      let (r, rs) = await_reply cmd s.incoming in
      (r, record s { incoming = rs; sent = s.sent ++ (cmd ∷ []) })
]

unfoldable pub capabilities : Command
capabilities = record { execute = codes "qmp_capabilities"; arguments = no_arguments }

unfoldable pub greeting_error : Option Text → Failure
greeting_error none =
    unavailable (codes "qemu monitor is not available: connection closed before the greeting")
greeting_error (some e) = other (codes "reading qemu greeting: " ++ e)

unfoldable pub greet : Session → Outcome Failure Text × Session
unfolding decode greeting_error capabilities execute
greet s =
    let (r, rs) = decode s.incoming in
    let t = record s { incoming = rs } in
    elim r [
      | at_end ↦ (err (greeting_error none), t)
      | broken e ↦ (err (greeting_error (some e)), t)
      | message m ↦
          if m.banner
          then execute capabilities t
          else (err (other (codes "qemu monitor sent no greeting")), t)
    ]

unfoldable pub then_execute :
    Command → Outcome Failure Text × Session → Outcome Failure Text × Session
then_execute cmd (err e, s) = (err e, s)
then_execute cmd (ok value, s) = execute cmd s

-- `run` on a connection.
unfoldable pub converse : Command → Session → Outcome Failure Text × Session
unfolding greet then_execute
converse cmd s = then_execute cmd (greet s)
