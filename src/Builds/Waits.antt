-- ===== src/Builds/Waits.antt =====
-- internal/builds/builds.go: the waits: `await`, `awaitStartup`, `WaitForPause` and `Abort`.
--
-- A wait looks at the build again and again until its deadline: the looks that it takes are a
-- list, whose length the clock decides. Behind each look it sleeps, or is cancelled.
use packer_qemu_mcp_server.Prelude.{
  ℕ, ℤ, zero, suc, pos, Bool, true, false, not, ◌||◌, List, [], ◌∷◌, ◌++◌, Option, none, some,
  if◌then◌else◌, Text, codes, join, show_int, Outcome, ok, err,
}
use packer_qemu_mcp_server.BuildState.States.{State}
use packer_qemu_mcp_server.BuildState.Roots.{Dir, supervisor_log_path, packer_log_path}
use packer_qemu_mcp_server.BuildState.Logs.{tail}
use packer_qemu_mcp_server.Control.Clients.{CallError}
use packer_qemu_mcp_server.Builds.Reports.{View, Report, status, tell}

-- `await`, of what each look sees. It looks before it asks for the time.
unfoldable pub await : List Bool → Bool
await [] = false
await (seen ∷ looks) = let rest = await looks in if seen then true else rest

-- One look of `WaitForPause` or `Abort`: the state file, whether the supervisor's socket is there,
-- and whether the caller gives up while the wait sleeps.
pub record Look : Type 0 where
  pub state : State
  pub listening : Bool
  pub cancelled : Bool

-- How a wait ends: given up, or over, with the number of times that it slept.
pub data Ended : Type 0 where
  given_up : Ended
  over : ℕ → Ended

unfoldable pub slept : Ended → Ended
slept given_up = given_up
slept (over n) = over (suc n)

unfoldable pub sleep : Look → Ended → Ended
unfolding slept
sleep look rest = if look.cancelled then given_up else slept rest

-- The loop of `WaitForPause`.
unfoldable pub wait_loop : List Look → Ended
unfolding sleep
wait_loop [] = over 0
wait_loop (look ∷ looks) =
    let rest = wait_loop looks in
    if look.state.paused || look.state.finished
    then over 0
    else if not look.listening
    then over 0
    else sleep look rest

-- The loop of `Abort`.
unfoldable pub stop_loop : List Look → Ended
unfolding sleep
stop_loop [] = over 0
stop_loop (look ∷ looks) =
    let rest = stop_loop looks in if look.state.finished then over 0 else sleep look rest

-- What is reported behind a wait, of what is read then: a wait that ran out reports too.
unfoldable pub reported : Text → View → ℤ → Ended → Outcome Text Report
unfolding status
reported cause v lines given_up = err cause
reported cause v lines (over n) = ok (status v lines)

-- `WaitForPause`, of what `Open` gave, of its looks, and of what is read at the end; `cause` is
-- what the context gives for being cancelled.
unfoldable pub wait_for_pause : Outcome Text Dir → Text → List Look → View → ℤ → Outcome Text Report
unfolding reported wait_loop
wait_for_pause (err e) cause looks v lines = err e
wait_for_pause (ok dir) cause looks v lines = reported cause v lines (wait_loop looks)

-- `Abort`, of what the supervisor answered to it, with what was read where it did not.
unfoldable pub abort :
    Outcome Text Dir → View → Option CallError → Text → List Look → View → ℤ → Outcome Text Report
unfolding tell reported stop_loop
abort (err e) told answer cause looks v lines = err e
abort (ok dir) told answer cause looks v lines = elim (tell told (codes "abort") answer) [
  | some e ↦ err e
  | none ↦ reported cause v lines (stop_loop looks)
]

-- `awaitStartup`: `up` are the looks for a build that listens or has finished, `done` those for one
-- that has finished, and `v` and `packer_log` are what is read at the end.
unfoldable pub await_startup : List Bool → List Bool → View → Option Text → Option Text
unfolding await
await_startup up done v packer_log =
    if not (await up)
    then some (
        codes "the supervisor for build "
        ++ (v.dir.id ++ (codes " never started; see " ++ supervisor_log_path v.dir)))
    else if not (await done)
    then none
    else elim v.state.exit_code [
      | pos zero ↦ none
      | _ ↦ some (
          codes "the build stopped immediately with exit status "
          ++ (show_int v.state.exit_code
              ++ (codes ":\n"
                  ++ (join (tail (pos 20) v.log) (codes "\n")
                      ++ (codes
                            "\n\nPacker's log, which is the only place QEMU's own messages appear, is "
                          ++ (packer_log_path v.dir
                              ++ (codes ":\n" ++ join (tail (pos 30) packer_log) (codes "\n"))))))))
    ]
