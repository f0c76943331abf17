-- ===== src/Lib.antt =====
-- A model of packer-qemu-mcp-server: the harness that runs Packer builds of virtual machines
-- detached, answers the pauses of `packer build -debug`, freezes and photographs the guest at
-- the pauses that matter, and lets an agent drive the builds over the Model Context Protocol.
--
-- The parts, and how they meet. A supervisor (internal/supervisor) owns one build. It reads the
-- build's terminal, finds the pauses that Packer announces there (internal/pause), stops at
-- those that matter with the guest frozen (internal/guest), publishes what it knows in the
-- build's directory (internal/buildstate), and takes calls over a control socket
-- (internal/control). The build service (internal/builds) starts supervisors, finds builds again
-- on disk, and passes the tools' requests on; the server (internal/mcpserver) gives it to
-- agents. The guest is reached through QEMU's monitor (internal/qmp), and typed text becomes
-- presses of keys (internal/keyboard).
--
-- The files, and the code that each is about.
--
-- Prelude: Go strings as lists of bytes, with what the program uses of `strings` and `fmt`;
--   lists over the native numbers; `Outcome` for a result with an error.
-- Pause, of internal/pause/pause.go: Pattern is the matcher of `pauseRE` (spaces, the optional
--   group, the name up to the first quote and full stop, case folded); Found has `Pause` with
--   `Label`, `Matches`, `Interesting` and `EndsBootCommand`; Scanner has `Scan` with the tail it
--   keeps. Streams shows what scanning a stream in chunks gives, Prompts what a transcript
--   gives, Labels and Names what the labels are.
-- Supervisor, of internal/supervisor/supervisor.go: Machine has the state and the small methods
--   (`note`, `publish`, `photograph`, `pass`, `runningPast`, `hold`); Handlers has `reached`,
--   `resume`, `abort`, `finish` and `dispatch`; Loop has `Run` and `run`, the select loop over
--   any sequence of pauses, calls and the exit; Queue has `enqueue`, over the times at which a
--   request is taken, looked at and replied to; Output has `read` and `drain`, Environments has
--   `command`. Terminal has `Terminate`, `signal` and `Wait` of internal/supervisor/terminal.go,
--   as events in any order; Openings has `Run` and `Open`, with what they open and close, and
--   Descriptors what is left open; Drives is a machine that knows no guest, disk or clock, and
--   Driven shows that the loop drives the build as it does. Each call to the monitor, the
--   terminal and the disk is recorded as an action, and what it answers is an argument,
--   `Answers`, so an error can come from each. The other children are about the handlers and the
--   loop.
-- Guest, of internal/guest/guest.go: Machine has `Freeze` and `Resume`, Input has `Type`,
--   `Holds` and `Point`, Screens has `Photograph`.
-- Keyboard, of internal/keyboard/keyboard.go: Keys has the tables, `Type` and `Keys`.
-- Qmp, of internal/qmp/qmp.go: Locks has `acquire` and its release as a step relation between
--   the goroutines of any number of processes; Commands has the commands and `axis`; Sessions
--   has `greet`, `execute` and `run` on a connection; Runs has `run` from the lock on; Polling
--   has `acquire` of one goroutine in time, and Turns shows that it ends.
-- BuildState, of internal/buildstate/buildstate.go: States has `Meta`, `State` and `Frame`;
--   Names has `NewID` and `validID`; Roots has `Create`, `prepare`, `Open`, `checkSocketPaths`
--   and the paths; Logs has `tail` and `readTail`; Files has `writeJSON` and `readJSON`, Stores
--   `WriteMeta`, `Meta`, `PublishState` and `State`; Listings has `Root.List`.
-- Control, of internal/control/control.go: Messages has `request` and `response`, over a codec;
--   Servers has `answer` and `serve`, Clients has `Call`; Connections has `Listen`, `accept`,
--   `serve` and `Close` as a step relation between the goroutines of any number of connections,
--   and Serial, Interleavings and Attended are about it.
-- Builds, of internal/builds/builds.go: Requests has `command` and what it is made of; Starts
--   has `Start`, and Launches `Launch` of internal/builds/launcher.go; Telling has `Continue`
--   and `Status` over the socket; Reports has `observe`, `summarise`, `condition`, `note`,
--   `List`, `Status`, `tell` and the explanations of errors; Waits has `await`, `awaitStartup`,
--   `WaitForPause` and `Abort`; Input has `SendKeys`, `Click`, `awake` and `Screenshot`.
--   Aftermath is about the report of a build that its supervisor has left, and Watched follows a
--   wait from what the supervisor receives.
-- McpServer, of internal/mcpserver/mcpserver.go: Registry has `New` and the inputs, with the
--   descriptions in Manuals; Arguments has `logLines`, `waitFor`, `button` and `times`;
--   Descriptions has `listing`, `describe` and `condition`; Tools has the interface `Builds` and
--   the tools over it. Asking writes down what the service is asked, and Adapter is about that.
--   Settling follows a build from the tool that starts it to its supervisor, Steering a call
--   from the tool to the supervisor's handler, and Observing the supervisor's state from there
--   to the tool.
-- Qmptest, of internal/qmptest/qmptest.go: Servers has the stand-in for the monitor that the
--   tests run against, with `serve`; Answers puts the client of Qmp against it.
-- Packertest, of internal/packertest/script.go: Scripts has the texts of the scripts, and Prints
--   what the scanner finds in what they print, in a shell that is a parameter.
-- Main, of cmd/packer-qemu-mcp-server/main.go: Commands has `run` and its commands.
--
-- Bounds and fuel. The loop of `Scan` runs on the length of its text as fuel, which is enough
-- because each match takes a byte at least. `digits` runs on n + 1, more than the digits of n.
-- The buffer of the scanner is 8192 bytes, the tail of a log 64 KiB, a socket's path at most 103
-- bytes, and a slug at most 24, as in the source. A wait is a loop over the looks that it takes
-- before its deadline; their number is arbitrary. Times are nanoseconds from Go's zero time.
--
-- What is not modelled, and why. The case of letters is folded for ASCII alone, in the pattern,
-- the labels and the names of keys. The clock, random bytes, file contents, the codec of JSON,
-- the monitor's and the terminal's answers and float64 are arguments. `sort.Slice` does not say
-- how it orders equal builds; here they keep their order. The pseudo-terminal and the sockets
-- themselves, the decoding of a picture, the shell that runs the stand-in for Packer, and the
-- library of the protocol are parameters, or left out where they are calls of the system alone.
pub mod Prelude
pub mod BuildState
pub mod Builds
pub mod Control
pub mod Guest
pub mod Keyboard
pub mod Main
pub mod McpServer
pub mod Packertest
pub mod Pause
pub mod Qmp
pub mod Qmptest
pub mod Supervisor
