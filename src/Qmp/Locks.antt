-- ===== src/Qmp/Locks.antt =====
-- internal/qmp/qmp.go: `gate`, `acquire` and what it returns, as steps that the goroutines of
-- several processes take in any order.
--
-- A client is a process and a goroutine of it. The channel of one place that `gate` makes is held
-- by one goroutine of the process at most. The record lock that `FcntlFlock` takes is POSIX's: it
-- belongs to a process, is granted to the process that has it already, and is gone when the
-- process closes any descriptor of the file, or dies.
use packer_qemu_mcp_server.Prelude.{ℕ, ◌==◌, ◌≡◌, ◌⊎◌, ◌&&◌, Option, none, some, if◌then◌else◌}

pub data Phase : Type 0 where
  -- Not in `acquire`, or waiting for the channel.
  outside : Phase
  -- In the channel, and asking for the file's lock.
  inside : Phase
  -- Between `acquire` and the call of what it returned.
  holding : Phase
  -- The file is closed, and the channel still taken.
  leaving : Phase

pub record World : Type 0 where
  pub gates : ℕ → Option ℕ
  pub owner : Option ℕ
  pub phases : ℕ → ℕ → Phase

unfoldable pub set_gate : ℕ → Option ℕ → (ℕ → Option ℕ) → ℕ → Option ℕ
set_gate p x gates q = if q == p then x else gates q

unfoldable pub set_phase : ℕ → ℕ → Phase → (ℕ → ℕ → Phase) → ℕ → ℕ → Phase
set_phase p g x phases q h = if (q == p) && (h == g) then x else phases q h

-- `entrance <- struct{}{}`
unfoldable pub enter : ℕ → ℕ → World → World
enter p g w = record w {
  gates = set_gate p (some g) w.gates;
  phases = set_phase p g inside w.phases;
}

-- `F_SETLK` with `F_WRLCK`, granted.
unfoldable pub lock : ℕ → ℕ → World → World
lock p g w = record w { owner = some p; phases = set_phase p g holding w.phases }

unfoldable pub disown : ℕ → Option ℕ → Option ℕ
disown p none = none
disown p (some q) = if q == p then none else some q

-- `file.Close()`, behind `F_UNLCK` or out of patience.
unfoldable pub close : ℕ → ℕ → World → World
close p g w = record w { owner = disown p w.owner; phases = set_phase p g leaving w.phases }

-- `leave()`
unfoldable pub leave : ℕ → ℕ → World → World
leave p g w = record w { gates = set_gate p none w.gates; phases = set_phase p g outside w.phases }

-- A process that dies.
unfoldable pub die : ℕ → World → World
die p w = record {
  gates = set_gate p none w.gates;
  owner = disown p w.owner;
  phases = λ q h. if q == p then outside else w.phases q h;
}

pub data Step : World → World → Type 0 where
  enters : {w : World} (p g : ℕ) → w.phases p g ≡ outside → w.gates p ≡ none → Step w (enter p g w)
  -- The lock file could not be opened.
  fails : {w : World} (p g : ℕ) → w.phases p g ≡ inside → Step w (leave p g w)
  locks :
      {w : World} (p g : ℕ)
      → w.phases p g ≡ inside
      → (w.owner ≡ none) ⊎ (w.owner ≡ some p)
      → Step w (lock p g w)
  gives_up : {w : World} (p g : ℕ) → w.phases p g ≡ inside → Step w (close p g w)
  releases : {w : World} (p g : ℕ) → w.phases p g ≡ holding → Step w (close p g w)
  leaves : {w : World} (p g : ℕ) → w.phases p g ≡ leaving → Step w (leave p g w)
  dies : {w : World} (p : ℕ) → Step w (die p w)

abbrev pub idle : World
idle = record { gates = λ p. none; owner = none; phases = λ p g. outside }

pub data Reachable : World → Type 0 where
  idling : Reachable idle
  step : {v w : World} → Reachable v → Step v w → Reachable w
