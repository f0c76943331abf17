-- ===== src/Qmptest/Servers.antt =====
-- internal/qmptest/qmptest.go: the stand-in's state, what a test sets it to do, and `serve` on one
-- connection.
--
-- Values are the texts that they are encoded as, and a message is what a client reads of it. A map
-- is a list of its entries, the latest first.
use packer_qemu_mcp_server.Prelude.{
  ℕ, suc, ltb, ◌==◌, Bool, true, false, not, ◌||◌, List, [], ◌∷◌, ◌++◌, Option, none, some,
  if◌then◌else◌, Text, codes, eq_text,
}
use packer_qemu_mcp_server.Qmp.Commands.{Command, Arguments, no_arguments, screendump_arguments}
use packer_qemu_mcp_server.Qmp.Sessions.{Message}

abbrev pub Table {ℓ} : Type ℓ → Type ℓ
Table A = List (Text × A)

unfoldable pub get {ℓ} : {A : Type ℓ} → Table A → Text → Option A
get [] key = none
get ((k, a) ∷ entries) key = let rest = get entries key in if eq_text k key then some a else rest

-- A picture that `paint` writes, with the screen's size.
pub record Painted : Type 0 where
  pub path : Text
  pub width : ℕ
  pub height : ℕ

pub record Server : Type 0 where
  pub silent : Bool
  pub returns : Table Text
  pub failures : Table (Text × Text)
  pub events : Table Text
  pub executed : List Text
  pub arguments : Table Arguments
  pub connections : ℕ
  pub screen : ℕ × ℕ
  pub later : Table (ℕ × Text)
  -- The files that `paint` has written.
  pub painted : List Painted

-- `start`
unfoldable pub fresh : Bool → Server
fresh silent = record {
  silent = silent;
  returns = [];
  failures = [];
  events = [];
  executed = [];
  arguments = [];
  connections = 0;
  screen = (0, 0);
  later = [];
  painted = [];
}

-- `Reply`, `ReplyAfter`, `Fail`, `Draw` and `EventBefore`
unfoldable pub reply : Text → Text → Server → Server
reply execute value s = record s { returns = (execute, value) ∷ s.returns }

unfoldable pub reply_after : Text → ℕ → Text → Server → Server
reply_after execute after value s = record s { later = (execute, (after, value)) ∷ s.later }

unfoldable pub fail : Text → Text → Text → Server → Server
fail execute class desc s = record s { failures = (execute, (class, desc)) ∷ s.failures }

unfoldable pub draw : ℕ → ℕ → Server → Server
draw width height s = record s { screen = (width, height) }

unfoldable pub event_before : Text → Text → Server → Server
event_before execute event s = record s { events = (execute, event) ∷ s.events }

unfoldable pub connected : Server → Server
connected s = record s { connections = suc s.connections }

abbrev pub recorded : Text → Arguments → Table Arguments → Table Arguments
recorded execute no_arguments entries = entries
recorded execute arguments entries = (execute, arguments) ∷ entries

-- `record`, whose name is a word of the language here.
unfoldable pub record_command : Command → Server → Server
record_command cmd s = record s {
  executed = s.executed ++ (cmd.execute ∷ []);
  arguments = recorded cmd.execute cmd.arguments s.arguments;
}

-- `counted`
unfoldable pub counted : Text → List Text → ℕ
counted execute [] = 0
counted execute (was ∷ rest) =
    let seen = counted execute rest in if eq_text was execute then suc seen else seen

abbrev pub filename : Arguments → Option Text
filename (screendump_arguments path format) = some path
filename _ = none

-- What `paint` writes, where the file can be created.
unfoldable pub painting : Command → ℕ × ℕ → List Painted
painting cmd (width, height) =
    if not (eq_text cmd.execute (codes "screendump")) || width == 0
    then []
    else elim (filename cmd.arguments) [
      | none ↦ []
      | some path ↦ record { path = path; width = width; height = height } ∷ []
    ]

-- `paint`
unfoldable pub paint : Command → Server → Server
unfolding painting
paint cmd s = record s { painted = s.painted ++ painting cmd s.screen }

-- The value that a command returns by now, if one is set.
unfoldable pub value_of : Server → Text → Option Text
unfolding get counted
value_of s execute = elim (get s.later execute) [
  | none ↦ get s.returns execute
  | some (after, value) ↦
      if ltb after (counted execute s.executed) then some value else get s.returns execute
]

abbrev pub event_message : Message
event_message = record { banner = false; answer = none; error = none }

abbrev pub return_message : Text → Message
return_message value = record { banner = false; answer = some value; error = none }

abbrev pub error_message : Text × Text → Message
error_message failure = record { banner = false; answer = none; error = some failure }

abbrev pub banner_message : Message
banner_message = record { banner = true; answer = none; error = none }

abbrev pub reply_message : Option (Text × Text) → Option Text → Message
reply_message (some failure) value = error_message failure
reply_message none (some value) = return_message value
reply_message none none = return_message (codes "{}")

abbrev pub event_messages : Option Text → List Message
event_messages none = []
event_messages (some event) = event_message ∷ []

-- `answer`: what it sends.
unfoldable pub answer : Server → Text → List Message
unfolding get value_of
answer s execute =
    event_messages (get s.events execute)
    ++ (reply_message (get s.failures execute) (value_of s execute) ∷ [])

-- The loop of `serve`, over the commands that arrive.
unfoldable pub serve_commands : Server → List Command → Server × List Message
unfolding record_command paint answer
serve_commands s [] = (s, [])
serve_commands s (cmd ∷ cmds) =
    let t = paint cmd (record_command cmd s) in
    let (u, messages) = serve_commands t cmds in (u, answer t cmd.execute ++ messages)

-- `serve`
unfoldable pub serve : Server → List Command → Server × List Message
unfolding connected serve_commands
serve s cmds =
    let t = connected s in
    let (u, messages) = serve_commands t cmds in
    if s.silent then (t, []) else (u, banner_message ∷ messages)
