-- ===== src/Qmp/Polling.antt =====
-- internal/qmp/qmp.go: `acquire` of one goroutine, in time.
--
-- The system's answer to each asking for the lock, and the time of each, are functions of how often
-- it was asked before. Behind each it sleeps, for as long as it asked for at least.
use packer_qemu_mcp_server.Prelude.{
  ℕ, zero, suc, ltb, Bool, Option, none, some, ◌++◌, if◌then◌else◌, Text, codes,
}
use packer_qemu_mcp_server.Qmp.Runs.{Acquired, locked, taken, unopened}

-- Ten milliseconds.
abbrev pub pause : ℕ
pause = 10000000

module _ (deadline : ℕ) (grants : ℕ → Bool) (times : ℕ → ℕ) where
  -- The loop, from the asking of a number on, with fuel.
  unfoldable pub poll : ℕ → ℕ → Option Acquired
  poll zero k = none
  poll (suc fuel) k =
      let rest = poll fuel (suc k) in
      if grants k
      then some (locked (times k))
      else if ltb deadline (times k)
      then some taken
      else rest

  -- `acquire`, of whether the channel let it in before the deadline, and of the error of the
  -- opening of the file.
  unfoldable pub acquire : ℕ → Bool → Option Text → Option Acquired
  unfolding poll
  acquire fuel entered open_error =
      if entered
      then elim open_error [
        | some e ↦ some (unopened (codes "opening monitor lock: " ++ e))
        | none ↦ poll fuel 0
      ]
      else some taken
